-- ===== src/Property/Validation.antt =====
-- What `CreateInput.Validate` and `UpdateInput.Validate` of internal/property decide, against a
-- description of a valid input.
pub mod Update
use chuchu.Prelude.{
  pos, ltb_ℤ, ◌≡◌, refl, ap, ◌∙◌, ◌↔◌, inl, inr, sym, Bool, true, false, not, ◌&&◌, ◌||◌, String,
  List, [], ◌∷◌, ◌++◌, ◌==◌, arith, Bool-cases, any, or-false, or_assoc, bool_laws, eq_true_of_not,
  is_blank, trim_space-eq_nil,
}
use chuchu.Apperr.{FieldError}
use chuchu.Effect.{Result, ok, err}
use chuchu.Outside.{Outside}
use chuchu.Property.{rental_mode_valid, layout_valid}
use chuchu.Property.Input.{
  CreateInput, report, validate_positive_decimal, validate_non_negative_decimal, validate,
  positive_reason, non_negative_reason,
}

-- The rules of the two decimal fields, as tests.
module _ (o : Outside) where
  abbrev pub is_positive_result : Result o.Decimal → Bool
  is_positive_result (err e) = false
  is_positive_result (ok d) = o.is_positive d

  abbrev pub is_non_negative_result : Result o.Decimal → Bool
  is_non_negative_result (err e) = false
  is_non_negative_result (ok d) = not (o.is_negative d)

  -- A rent or an area: a decimal above zero.
  abbrev pub is_amount : String → Bool
  is_amount s = is_positive_result (o.new_from_string s)

  -- A fee: blank, which counts as not given, or a decimal that is not negative.
  abbrev pub is_fee : String → Bool
  is_fee s = is_blank s || is_non_negative_result (o.new_from_string s)

  positive_reason-eq_nil :
      (r : Result o.Decimal) → (positive_reason o r == "") ≡ is_positive_result r
  positive_reason-eq_nil (err e) = refl
  positive_reason-eq_nil (ok d) = elim (Bool-cases (o.is_positive d)) [
    | inl h ↦ rw h
    | inr h ↦ rw h
  ]

  non_negative_reason-eq_nil :
      (r : Result o.Decimal) → (non_negative_reason o r == "") ≡ is_non_negative_result r
  non_negative_reason-eq_nil (err e) = refl
  non_negative_reason-eq_nil (ok d) = elim (Bool-cases (o.is_negative d)) [
    | inl h ↦ rw h
    | inr h ↦ rw h
  ]

  amount_reason : (s : String) → (validate_positive_decimal o s == "") ≡ is_amount s
  unfolding validate_positive_decimal
  amount_reason s = positive_reason-eq_nil (o.new_from_string s)

  fee_reason : (s : String) → (validate_non_negative_decimal o s == "") ≡ is_fee s
  unfolding validate_non_negative_decimal
  fee_reason s = elim (Bool-cases (is_blank s)) [
    | inl h ↦ rw (trim_space-eq_nil, h)
    | inr h ↦ rw (trim_space-eq_nil, h) (non_negative_reason-eq_nil (o.new_from_string s))
  ]

-- `errs` names the field.
abbrev pub names : String → List FieldError → Bool
names field = any (λ e. e.field == field)

names-concat :
    (field : String) (es : List FieldError) (e : FieldError)
    → names field (es ++ e ∷ []) ≡ (names field es || (e.field == field))
names-concat field [] e = or-false (e.field == field)
names-concat field (f ∷ es) e =
    rw (names-concat field es e)
      (sym (or_assoc (f.field == field) (names field es) (e.field == field)))

names-report :
    (field : String) (bad : Bool) (name reason : String) (errs : List FieldError)
    → names field (report bad name reason errs) ≡ (names field errs || (bad && (name == field)))
names-report field true name reason errs = names-concat field errs _
names-report field false name reason errs = sym (or-false (names field errs))

module _ (o : Outside) where
  -- `Validate` reports every field that breaks its rule, not only the first, and none that
  -- keeps it.
  pub names-validate :
      (input : CreateInput)
      → let errs = validate o input in
        (names "city" errs ≡ is_blank input.city)
        × (names "street_address" errs ≡ is_blank input.street_address)
        × (names "monthly_rent" errs ≡ not (is_amount o input.monthly_rent))
        × (names "area_ping" errs ≡ not (is_amount o input.area_ping))
        × (names "management_fee" errs ≡ not (is_fee o input.management_fee))
        × (names "deposit_months" errs ≡ ltb_ℤ input.deposit_months (pos 0))
        × (names "rental_mode" errs ≡ not (rental_mode_valid input.rental_mode))
        × (names "layout" errs ≡ not (layout_valid input.layout))
  unfolding validate
  names-validate input = (
    simp (names-report, amount_reason, fee_reason, trim_space-eq_nil, bool_laws),
    simp (names-report, amount_reason, fee_reason, trim_space-eq_nil, bool_laws),
    simp (names-report, amount_reason, fee_reason, trim_space-eq_nil, bool_laws),
    simp (names-report, amount_reason, fee_reason, trim_space-eq_nil, bool_laws),
    simp (names-report, amount_reason, fee_reason, trim_space-eq_nil, bool_laws),
    simp (names-report, amount_reason, fee_reason, trim_space-eq_nil, bool_laws),
    simp (names-report, amount_reason, fee_reason, trim_space-eq_nil, bool_laws),
    simp (names-report, amount_reason, fee_reason, trim_space-eq_nil, bool_laws),
  )

module _ (o : Outside) where
  -- A valid input: each of the eight rules is kept.
  pub record IsValid (input : CreateInput) : Type 0 where
    pub city : is_blank input.city ≡ false
    pub street_address : is_blank input.street_address ≡ false
    pub monthly_rent : is_amount o input.monthly_rent ≡ true
    pub area_ping : is_amount o input.area_ping ≡ true
    pub management_fee : is_fee o input.management_fee ≡ true
    pub deposit_months : ltb_ℤ input.deposit_months (pos 0) ≡ false
    pub rental_mode : rental_mode_valid input.rental_mode ≡ true
    pub layout : layout_valid input.layout ≡ true

  IsValid-of_nil : (input : CreateInput) → validate o input ≡ [] → IsValid input
  IsValid-of_nil input h =
      let (city, street, rent, area, fee, deposit, mode, layout) = names-validate o input in
      record {
        city = sym city ∙ ap (names "city") h;
        street_address = sym street ∙ ap (names "street_address") h;
        monthly_rent = eq_true_of_not (sym rent ∙ ap (names "monthly_rent") h);
        area_ping = eq_true_of_not (sym area ∙ ap (names "area_ping") h);
        management_fee = eq_true_of_not (sym fee ∙ ap (names "management_fee") h);
        deposit_months = sym deposit ∙ ap (names "deposit_months") h;
        rental_mode = eq_true_of_not (sym mode ∙ ap (names "rental_mode") h);
        layout = eq_true_of_not (sym layout ∙ ap (names "layout") h);
      }

  nil_of_IsValid : (input : CreateInput) → IsValid input → validate o input ≡ []
  unfolding validate
  nil_of_IsValid input v = simp (
    trim_space-eq_nil, amount_reason, fee_reason, v.city, v.street_address, v.monthly_rent,
    v.area_ping, v.management_fee, v.deposit_months, v.rental_mode, v.layout,
  )

  -- `CreateInput.Validate` reports nothing exactly for the valid inputs.
  pub validate-eq_nil_iff : (input : CreateInput) → (validate o input ≡ []) ↔ IsValid input
  validate-eq_nil_iff input = (IsValid-of_nil input, nil_of_IsValid input)
