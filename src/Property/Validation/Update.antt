-- ===== src/Property/Validation/Update.antt =====
-- What `UpdateInput.Validate` of internal/property/update.go decides.
use chuchu.Prelude.{
  ℤ, pos, ltb_ℤ, ◌≡◌, sym, ◌∙◌, ap, Bool, false, not, ◌&&◌, ◌||◌, String, List, [], Option, none,
  some, ◌==◌, or-false, bool_laws,
}
use chuchu.Apperr.{FieldError}
use chuchu.Outside.{Outside}
use chuchu.Property.{layout_valid}
use chuchu.Property.Input.{
  UpdateInput, validate_update, report_rent, report_fee, report_deposit, report_layout,
}
use chuchu.Property.Validation.{is_amount, is_fee, amount_reason, fee_reason, names, names-report}

-- A field that is given breaks its rule.
abbrev pub breaks : {A : Type 0} → (A → Bool) → Option A → Bool
breaks rule none = false
breaks rule (some a) = not (rule a)

abbrev pub is_deposit : ℤ → Bool
is_deposit n = not (ltb_ℤ n (pos 0))

module _ (o : Outside) (field : String) (errs : List FieldError) where
  names-report_rent :
      (s : Option String)
      → names field (report_rent o s errs)
        ≡ (names field errs || (breaks (is_amount o) s && ("monthly_rent" == field)))
  names-report_rent none = sym (or-false (names field errs))
  names-report_rent (some s) = simp (names-report, amount_reason)

  names-report_fee :
      (s : Option String)
      → names field (report_fee o s errs)
        ≡ (names field errs || (breaks (is_fee o) s && ("management_fee" == field)))
  names-report_fee none = sym (or-false (names field errs))
  names-report_fee (some s) = simp (names-report, fee_reason)

module _ (field : String) (errs : List FieldError) where
  names-report_deposit :
      (n : Option ℤ)
      → names field (report_deposit n errs)
        ≡ (names field errs || (breaks is_deposit n && ("deposit_months" == field)))
  names-report_deposit none = sym (or-false (names field errs))
  names-report_deposit (some n) = simp (names-report, bool_laws)

  names-report_layout :
      (l : Option String)
      → names field (report_layout l errs)
        ≡ (names field errs || (breaks layout_valid l && ("layout" == field)))
  names-report_layout none = sym (or-false (names field errs))
  names-report_layout (some l) = simp (names-report)

ruleset update_reports =
    (names-report_rent, names-report_fee, names-report_deposit, names-report_layout, bool_laws)

module _ (o : Outside) (input : UpdateInput) where
  -- `Validate` of an update reports every given field that breaks its rule, and none that is not
  -- given.
  pub names-validate_update :
      let errs = validate_update o input in
      (names "monthly_rent" errs ≡ breaks (is_amount o) input.monthly_rent)
      × (names "management_fee" errs ≡ breaks (is_fee o) input.management_fee)
      × (names "deposit_months" errs ≡ breaks is_deposit input.deposit_months)
      × (names "layout" errs ≡ breaks layout_valid input.layout)
  unfolding validate_update
  names-validate_update =
      (simp update_reports, simp update_reports, simp update_reports, simp update_reports)

  -- No given field of the input breaks its rule.
  pub record IsValidUpdate : Type 0 where
    pub monthly_rent : breaks (is_amount o) input.monthly_rent ≡ false
    pub management_fee : breaks (is_fee o) input.management_fee ≡ false
    pub deposit_months : breaks is_deposit input.deposit_months ≡ false
    pub layout : breaks layout_valid input.layout ≡ false

  pub IsValidUpdate_of_nil : validate_update o input ≡ [] → IsValidUpdate
  IsValidUpdate_of_nil h =
      let (rent, fee, deposit, layout) = names-validate_update in
      record {
        monthly_rent = sym rent ∙ ap (names "monthly_rent") h;
        management_fee = sym fee ∙ ap (names "management_fee") h;
        deposit_months = sym deposit ∙ ap (names "deposit_months") h;
        layout = sym layout ∙ ap (names "layout") h;
      }
