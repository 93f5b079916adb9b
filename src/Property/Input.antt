-- ===== src/Property/Input.antt =====
-- The inputs of the property service and their validation: `CreateInput` of
-- internal/property/create.go, `UpdateInput` of update.go, `ListFilter` and `normalize` of query.go.
use chuchu.Prelude.{
  ℤ, pos, ltb_ℤ, Bool, not, String, List, [], ◌∷◌, ◌++◌, Option, none, some, ◌==◌, if◌then◌else◌,
  trim_space,
}
use chuchu.Apperr.{FieldError}
use chuchu.Effect.{Result, ok, err}
use chuchu.Outside.{Outside}
use chuchu.Property.{RentalMode, Status, Property, rental_mode_valid, layout_valid}

pub record CreateInput : Type 0 where
  pub city : String
  pub district : String
  pub street_address : String
  pub floor : String
  pub room_no : String
  pub layout : String
  pub area_ping : String
  pub monthly_rent : String
  pub management_fee : String
  pub deposit_months : ℤ
  pub rental_mode : String
  pub landlord_name : String
  pub landlord_phone : String

-- A nil pointer is `none`: the field is left alone.
pub record UpdateInput : Type 0 where
  pub monthly_rent : Option String
  pub management_fee : Option String
  pub deposit_months : Option ℤ
  pub layout : Option String
  pub landlord_name : Option String
  pub landlord_phone : Option String

pub record ListFilter : Type 0 where
  pub page : ℤ
  pub page_size : ℤ
  pub status : Option Status
  pub rental_mode : Option RentalMode
  pub city : String

pub record ListResult (o : Outside) : Type 0 where
  pub items : List (Property o)
  pub total : ℤ

-- `if bad { errs = append(errs, …) }`
abbrev pub report : Bool → String → String → List FieldError → List FieldError
report bad field reason errs =
    if bad then errs ++ record { field = field; reason = reason } ∷ [] else errs

-- `if reason := …; reason != "" { errs = append(errs, …) }`
abbrev pub report_reason : String → String → List FieldError → List FieldError
report_reason field reason errs = report (not (reason == "")) field reason errs

abbrev pub layout_reason : String
layout_reason = "必須是 WHOLE_UNIT、INDEPENDENT_SUITE、SHARED_SUITE 或 SINGLE_ROOM 之一"

abbrev pub report_deposit : Option ℤ → List FieldError → List FieldError
report_deposit none errs = errs
report_deposit (some n) errs = report (ltb_ℤ n (pos 0)) "deposit_months" "不可為負數" errs

abbrev pub report_layout : Option String → List FieldError → List FieldError
report_layout none errs = errs
report_layout (some l) errs = report (not (layout_valid l)) "layout" layout_reason errs

module _ (o : Outside) where
  -- what each validator makes of `decimal.NewFromString(s)`
  abbrev pub positive_reason : Result o.Decimal → String
  positive_reason (err e) = "必須是合法的十進位數字"
  positive_reason (ok d) = if not (o.is_positive d) then "必須大於 0" else ""

  abbrev pub non_negative_reason : Result o.Decimal → String
  non_negative_reason (err e) = "必須是合法的十進位數字"
  non_negative_reason (ok d) = if o.is_negative d then "不可為負數" else ""

  unfoldable pub validate_positive_decimal : String → String
  validate_positive_decimal s = positive_reason (o.new_from_string s)

  unfoldable pub validate_non_negative_decimal : String → String
  validate_non_negative_decimal s =
      if trim_space s == "" then "" else non_negative_reason (o.new_from_string s)

  -- `CreateInput.Validate`
  unfoldable pub validate : CreateInput → List FieldError
  validate input =
      let e1 = report (trim_space input.city == "") "city" "不可為空" [] in
      let e2 = report (trim_space input.street_address == "") "street_address" "不可為空" e1 in
      let e3 = report_reason "monthly_rent" (validate_positive_decimal input.monthly_rent) e2 in
      let e4 = report_reason "area_ping" (validate_positive_decimal input.area_ping) e3 in
      let e5 =
        report_reason "management_fee" (validate_non_negative_decimal input.management_fee) e4 in
      let e6 = report (ltb_ℤ input.deposit_months (pos 0)) "deposit_months" "不可為負數" e5 in
      let e7 =
        report (not (rental_mode_valid input.rental_mode)) "rental_mode"
          "必須是 MASTER_LEASE 或 MANAGED" e6 in
      report (not (layout_valid input.layout)) "layout" layout_reason e7

  abbrev pub report_rent : Option String → List FieldError → List FieldError
  report_rent none errs = errs
  report_rent (some s) errs = report_reason "monthly_rent" (validate_positive_decimal s) errs

  abbrev pub report_fee : Option String → List FieldError → List FieldError
  report_fee none errs = errs
  report_fee (some s) errs = report_reason "management_fee" (validate_non_negative_decimal s) errs

  -- `UpdateInput.Validate`
  unfoldable pub validate_update : UpdateInput → List FieldError
  validate_update input =
      let e1 = report_rent input.monthly_rent [] in
      let e2 = report_fee input.management_fee e1 in
      let e3 = report_deposit input.deposit_months e2 in report_layout input.layout e3

-- `ListFilter.normalize`
unfoldable pub normalize : ListFilter → ListFilter
normalize f =
    let page = if ltb_ℤ f.page (pos 1) then pos 1 else f.page in
    let size = if ltb_ℤ f.page_size (pos 1) then pos 20 else f.page_size in
    record f { page = page; page_size = if ltb_ℤ (pos 100) size then pos 100 else size }
