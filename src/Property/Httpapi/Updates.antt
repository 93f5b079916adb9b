-- ===== src/Property/Httpapi/Updates.antt =====
-- What a successful answer to `PATCH /properties/{id}` of internal/property/httpapi means.
use mathlib.Core.Option
use chuchu.Prelude.{
  ◌≡◌, refl, ap, ◌∙◌, sym, not, inl, inr, ◌⊎◌, Bool-cases, Option, none, some, String, [], ◌==◌,
  is_empty, eq_iff,
}
use mathlib.Core.Path.{subst}
use chuchu.Effect.{ok, continue-eq_ok, ok_injective, pure, ◌>>◌, and_then-eq_ok, map_err-eq_ok}
use chuchu.Outside.{Outside}
use chuchu.Property.{Property}
use chuchu.Property.Input.{UpdateInput, validate_update}
use chuchu.Property.Service.{
  Repository, apply_update, finish_update, update, new_rent, new_fee, parse_fee,
}
use chuchu.Property.Service.Contract.{stored, Same, Wrote, Wrote-after, IsRepository}
use chuchu.Property.Service.Keeps.{identity}
use chuchu.Property.Service.Runs.{is_empty_of}
use chuchu.Property.Httpapi.{
  ApiProperty, UpdatePropertyRequest, to_update_input, to_api_property, update_property,
}

module _ (o : Outside) where
  -- The amount after an update: the old one, or what the text says.
  abbrev pub NewRent : Option String → o.Decimal → o.Decimal → Type 0
  NewRent none old new = new ≡ old
  NewRent (some s) old new = o.new_from_string s ≡ ok new

  -- For the fee the empty text says zero.
  abbrev pub NewFee : Option String → o.Decimal → o.Decimal → Type 0
  NewFee none old new = new ≡ old
  NewFee (some s) old new = ((s ≡ "") × (new ≡ o.zero)) ⊎ (o.new_from_string s ≡ ok new)

  -- The new property has the given fields and the instant of the update, and for the rest it is the old one.
  pub record Differs (now : o.Time) (input : UpdateInput) (old new : Property o) : Type 0 where
    pub identity_kept : identity o new ≡ identity o old
    pub status_kept : new.status ≡ old.status
    pub monthly_rent : NewRent input.monthly_rent old.monthly_rent new.monthly_rent
    pub management_fee : NewFee input.management_fee old.management_fee new.management_fee
    pub deposit_months : new.deposit_months ≡ Option.get_or input.deposit_months old.deposit_months
    pub layout : new.layout ≡ Option.get_or input.layout old.layout
    pub landlord_name : new.landlord_name ≡ Option.get_or input.landlord_name old.landlord_name
    pub landlord_phone : new.landlord_phone ≡ Option.get_or input.landlord_phone old.landlord_phone
    pub updated_at : new.updated_at ≡ now

  new_rent-NewRent :
      (p : Property o) (given : Option String) {rent : o.Decimal}
      → new_rent o p given ≡ ok rent
      → NewRent given p.monthly_rent rent
  new_rent-NewRent p none h = sym (ok_injective h)
  new_rent-NewRent p (some s) h = map_err-eq_ok _ (o.new_from_string s) h

  new_fee-NewFee :
      (p : Property o) (given : Option String) {fee : o.Decimal}
      → new_fee o p given ≡ ok fee
      → NewFee given p.management_fee fee
  unfolding parse_fee
  new_fee-NewFee p none h = sym (ok_injective h)
  new_fee-NewFee p (some s) h = elim (Bool-cases (s == "")) [
    | inl empty ↦ inl ((eq_iff s "").0 empty, sym (ok_injective (rw empty at h)))
    | inr given ↦ inr (map_err-eq_ok _ (o.new_from_string s) (rw given at h))
  ]

  apply_update-Differs :
      (now : o.Time) (input : UpdateInput) (p : Property o) {q : Property o}
      → apply_update o now input p ≡ ok q
      → Differs now input p q
  unfolding apply_update
  apply_update-Differs now input p h =
      let (rent, rr, h) = and_then-eq_ok (new_rent o p input.monthly_rent) _ h in
      let (fee, rf, h) = and_then-eq_ok (new_fee o p input.management_fee) _ h in
      subst (Differs now input p) (ok_injective h) (record {
        identity_kept = refl;
        status_kept = refl;
        monthly_rent = new_rent-NewRent p input.monthly_rent rr;
        management_fee = new_fee-NewFee p input.management_fee rf;
        deposit_months = refl;
        layout = refl;
        landlord_name = refl;
        landlord_phone = refl;
        updated_at = refl;
      })

  module _ {S : Type 0} (rows : S → o.Uuid → Option (Property o)) (repo : Repository o S)
      (law : IsRepository o rows repo) (now : o.Time) (id : o.Uuid) (input : UpdateInput)
      (s : S) where
    -- The property was read and changed as the input says, and what the columns keep of it was written;
    -- nothing else was.
    pub record Updated (q : Property o) (t : S) : Type 0 where
      pub old : Property o
      pub read : rows s id ≡ some old
      pub differs : Differs now input old q
      pub wrote : Wrote o rows (stored o q) s t

    stored-Updated :
        (p q : Property o) (u : S) {r : Property o}
        → rows s id ≡ some p
        → Same o rows s u
        → apply_update o now input p ≡ ok q
        → ((repo.update q >> pure q) u).0 ≡ ok r
        → Updated r ((repo.update q >> pure q) u).1
    stored-Updated p q u {r} read same changed h =
        let (_, done, e) = continue-eq_ok (repo.update q u).0 (λ _. pure q) (repo.update q u).1 h in
        let is_q : q ≡ r = ok_injective (sym (ap (λ x. x.0) e) ∙ h) in
        rw e (
          subst (λ x. Updated x (repo.update q u).1) is_q
            (record {
              old = p;
              read = read;
              differs = apply_update-Differs now input p changed;
              wrote = Wrote-after o rows same (law.update_ok q u done);
            }))

    finish_update-Updated :
        (p : Property o) (u : S) {q : Property o}
        → rows s id ≡ some p
        → Same o rows s u
        → (finish_update o repo now input p u).0 ≡ ok q
        → Updated q (finish_update o repo now input p u).1
    finish_update-Updated p u {q} read same h =
        let (p', changed, e) =
          continue-eq_ok (apply_update o now input p) (λ p'. repo.update p' >> pure p') u h in
        rw e (stored-Updated p p' u read same changed (sym (ap (λ x. x.0) e) ∙ h))

    update-Updated :
        {q : Property o}
        → (update o repo now id input s).0 ≡ ok q
        → (validate_update o input ≡ []) × Updated q (update o repo now id input s).1
    unfolding update
    update-Updated {q} h = elim (Bool-cases (not (is_empty (validate_update o input)))) [
      | inl bad ↦ cc (rw bad at h)
      | inr good ↦
          let h' = rw good at h in
          let u = (repo.get_by_id id s).1 in
          let (p, found, e) =
            continue-eq_ok (repo.get_by_id id s).0 (finish_update o repo now input) u h' in
          (
            is_empty_of (validate_update o input) good,
            rw (good, e)
                (finish_update-Updated p u (law.get_reads id s p found) (law.get_same id s)
                  (sym (ap (λ x. x.0) e) ∙ h')),
          )
    ]

  -- When an update is answered by a property, the input was valid, that property has its fields and is
  -- for the rest the old one, and the row holds what its columns keep of it.
  pub update_property-Updated :
      {S : Type 0} (rows : S → o.Uuid → Option (Property o)) (repo : Repository o S)
      (law : IsRepository o rows repo) (now : o.Time) (id : o.Uuid) (body : UpdatePropertyRequest)
      (s : S) (a : ApiProperty o)
      → (update_property o repo now id (some body) s).0 ≡ ok a
      → (validate_update o (to_update_input body) ≡ [])
        × ((q : Property o) × Updated rows repo law now id
              (to_update_input body)
              s
              q
              (update_property o repo now id (some body) s).1
            × (to_api_property o q ≡ a))
  unfolding update_property
  update_property-Updated rows repo law now id body s a h =
      let u = (update o repo now id (to_update_input body) s).1 in
      let (q, done, e) =
        continue-eq_ok (update o repo now id (to_update_input body) s).0
          (λ p. pure (to_api_property o p)) u h in
      let (valid, updated) = update-Updated rows repo law now id (to_update_input body) s done in
      (valid, rw e (q, updated, ok_injective (sym (ap (λ x. x.0) e) ∙ h)))
