-- ===== src/Property/Service/Refusals.antt =====
-- What the operations of the property service return, on success and on each refusal.
use chuchu.Prelude.{
  ◌≡◌, refl, ◌≢◌, true, false, not, String, List, [], ◌∷◌, ◌==◌, ◌||◌, eq_false_of_not, Bool-cases,
  is_empty, is_blank, inl, inr,
}
use chuchu.Apperr.{GoError, to_go, validation}
use chuchu.Effect.{Result, ok, err, pure, ◌>>◌}
use chuchu.Outside.{Outside, DecimalLaws}
use chuchu.Property.{Status, Property, vacant, can_transition}
use chuchu.Property.Input.{CreateInput, UpdateInput, validate, validate_update}
use chuchu.Property.Validation.{
  is_amount, is_fee, is_positive_result, is_non_negative_result, IsValid, validate-eq_nil_iff,
}
use chuchu.Property.Service.{
  Repository, parse_error, transition_error, parse_fee, parse_input, build, apply_status, create,
  update, change_status,
}
use chuchu.Property.Service.Keeps.{IsSound, parse_input-IsSound}

not_empty : {A : Type 0} {xs : List A} → xs ≢ [] → not (is_empty xs) ≡ true
not_empty {xs = []} h = absurd (h refl)
not_empty {xs = x ∷ xs} h = refl

module _ (o : Outside) {S : Type 0} (repo : Repository o S) where
  -- An input to `Create` or to `Update` that breaks a rule is refused with every broken rule in the
  -- details, and the repository is not called.
  pub refuses_invalid :
      (id : o.Uuid) (now : o.Time) (input : CreateInput) (change : UpdateInput) (s : S)
      → validate o input ≢ []
      → validate_update o change ≢ []
      → (create o repo id now input s ≡ (err (to_go (validation (validate o input))), s))
        × (update o repo now id change s ≡ (err (to_go (validation (validate_update o change))), s))
  unfolding create update
  refuses_invalid id now input change s h k = (rw (not_empty h), rw (not_empty k))

  -- A transition that the state machine does not have is refused with both statuses in the
  -- message, after `GetByID` and with no call of `Update`.
  pub refuses_transition :
      (id : o.Uuid) (now : o.Time) (target : Status) (s : S) (p : Property o)
      → (repo.get_by_id id s).0 ≡ ok p
      → can_transition p.status target ≡ false
      → change_status o repo now id target s
        ≡ (err (transition_error o p.status target), (repo.get_by_id id s).1)
  unfolding change_status apply_status
  refuses_transition id now target s p found refused = rw (found, refused)

-- A test that holds of a result was made on a value.
pub amount_value :
    (o : Outside) (s : String)
    → is_amount o s ≡ true
    → (x : o.Decimal) × (o.new_from_string s ≡ ok x)
amount_value o s h = value (o.new_from_string s) refl h
  where
    value :
        (r : Result o.Decimal)
        → o.new_from_string s ≡ r
        → is_positive_result o r ≡ true
        → (x : o.Decimal) × (o.new_from_string s ≡ ok x)
    value (ok x) e h = (x, e)
    value (err g) e h = cc

pub fee_value :
    (o : Outside) (s : String)
    → is_fee o s ≡ true
    → (s == "") || not (is_blank s) ≡ true
    → (x : o.Decimal) × (parse_fee o s ≡ ok x)
unfolding parse_fee
fee_value o s h plain = elim (Bool-cases (s == "")) [
  | inl empty ↦ (o.zero, rw empty)
  | inr given ↦
      let written = eq_false_of_not (rw given at plain) in
      let (x, e) = value (o.new_from_string s) refl (rw written at h) in (x, rw (given, e))
]
  where
    value :
        (r : Result o.Decimal)
        → o.new_from_string s ≡ r
        → is_non_negative_result o r ≡ true
        → (x : o.Decimal) × (o.new_from_string s ≡ ok x)
    value (ok x) e h = (x, e)
    value (err g) e h = cc

module _ (o : Outside) (d : DecimalLaws o) (input : CreateInput) (v : IsValid o input) where
  pub parse_input_value :
      (id : o.Uuid) (now : o.Time)
      → (input.management_fee == "") || not (is_blank input.management_fee) ≡ true
      → (area rent fee : o.Decimal) × (o.new_from_string input.area_ping ≡ ok area)
        × (o.new_from_string input.monthly_rent ≡ ok rent)
        × (parse_fee o input.management_fee ≡ ok fee)
        × (parse_input o id now input ≡ ok (build o id now input area rent fee))
  unfolding parse_input
  parse_input_value id now plain =
      let (area, ra) = amount_value o input.area_ping v.area_ping in
      let (rent, rr) = amount_value o input.monthly_rent v.monthly_rent in
      let (fee, rf) = fee_value o input.management_fee v.management_fee plain in
      (area, rent, fee, ra, rr, rf, rw (ra, rr, rf))

  module _ {S : Type 0} (repo : Repository o S) (id : o.Uuid) (now : o.Time) (s : S) where
    -- For a valid input whose fee is empty or not blank, `Create` hands one sound, vacant property
    -- with the new id to the repository, and returns it or the repository's error.
    pub create_valid :
        (input.management_fee == "") || not (is_blank input.management_fee) ≡ true
        → (p : Property o) × IsSound o p
          × (p.status ≡ vacant)
          × (p.id ≡ id)
          × (create o repo id now input s ≡ (repo.create p >> pure p) s)
    unfolding create
    create_valid plain =
        let (area, rent, fee, _, _, _, parsed) = parse_input_value id now plain in
        let p = build o id now input area rent fee in
        let (sound, is_vacant, same_id) = parse_input-IsSound o d id now input v parsed in
        (p, sound, is_vacant, same_id, rw ((validate-eq_nil_iff o input).1 v, parsed))

    -- A fee of white space alone passes `Validate`, and `Create` refuses it all the same: with the
    -- code of a validation error, and with no field in the details.
    pub create_blank_fee :
        is_blank input.management_fee ≡ true
        → (input.management_fee == "") ≡ false
        → (validate o input ≡ [])
          × ((e : GoError) × (create o repo id now input s
                ≡ (err (parse_error "management_fee 解析失敗" e), s)))
    unfolding create parse_input parse_fee
    create_blank_fee blank given =
        let (area, ra) = amount_value o input.area_ping v.area_ping in
        let (rent, rr) = amount_value o input.monthly_rent v.monthly_rent in
        let (e, rejected) = d.blank_rejected input.management_fee blank in
        let nothing = (validate-eq_nil_iff o input).1 v in
        (nothing, (e, rw (nothing, ra, rr, given, rejected)))
