-- ===== src/Tests/Properties.antt =====
-- The property service and its repository on the small world of Tests/World: an empty table, a table
-- with one row, and one input.
use chuchu.Prelude.{
  sym, pos, ◌≡◌, refl, ◌≢◌, ◌↔◌, true, not, String, [], ◌∷◌, none, some, is_blank, ltb_ℤ,
}
use mathlib.Core.Bool.{false≢true}
use chuchu.Apperr.{GoError, pg_error}
use chuchu.Effect.{err}
use chuchu.Property.{
  Status, Property, can_transition, rental_mode_valid, layout_valid, renovating, delisted,
}
use chuchu.Property.StateMachine.{Edge, can_transition_iff}
use chuchu.Property.Input.{CreateInput, UpdateInput, validate, validate_update}
use chuchu.Property.Validation.{
  names, is_amount, is_fee, IsValid, names-validate, validate-eq_nil_iff,
}
use chuchu.Property.Validation.Update.{IsValidUpdate_of_nil}
use chuchu.Property.Service.{Repository, create, parse_error, finish_update, apply_update}
use chuchu.Property.Service.Contract.{IsRepository}
use chuchu.Property.Service.Keeps.{Evolves}
use chuchu.Property.Service.Refusals.{create_blank_fee}
use chuchu.Property.Service.Lost.{lost_transition}
use chuchu.Property.Pgrepo
use chuchu.Property.Pgrepo.{
  PropertyModel, to_model, to_domain, repository, translate_insert, translate_select, as_pg_error,
  is_unique_violation, not_found_error, check_affected,
}
use chuchu.Property.Pgrepo.Refines.{rows, repository-IsRepository}
use chuchu.Tests.World.{world, world-DecimalLaws, Table, find, memory, memory-IsDb}

abbrev repo : Repository world Table
repo = repository world memory

law : IsRepository world (rows world find) repo
law = repository-IsRepository world find memory memory-IsDb

abbrev input_with : String → CreateInput
input_with fee = record {
  city = "台北市";
  district = "大安區";
  street_address = "和平東路 1 號";
  floor = "3";
  room_no = "A";
  layout = "WHOLE_UNIT";
  area_ping = "28.5";
  monthly_rent = "25000";
  management_fee = fee;
  deposit_months = pos 2;
  rental_mode = "MANAGED";
  landlord_name = "";
  landlord_phone = "";
}

abbrev bad_input : CreateInput
bad_input = record (input_with "-1") { city = " "; layout = "CASTLE" }

abbrev no_change : UpdateInput
no_change = record {
  monthly_rent = none;
  management_fee = none;
  deposit_months = none;
  layout = none;
  landlord_name = none;
  landlord_phone = none;
}

abbrev flat : Status → Property world
flat s = record {
  id = 7;
  city = "台北市";
  district = "大安區";
  street_address = "和平東路 1 號";
  floor = "3";
  room_no = "A";
  layout = "WHOLE_UNIT";
  area_ping = pos 28;
  monthly_rent = pos 25000;
  management_fee = pos 0;
  deposit_months = pos 2;
  rental_mode = "MANAGED";
  status = s;
  landlord_name = "";
  landlord_phone = "";
  created_at = 0;
  updated_at = 0;
}

abbrev table_of : Status → Table
table_of s = to_model world (flat s) ∷ []

input-IsValid : (fee : String) → is_fee world fee ≡ true → IsValid world (input_with fee)
unfolding rental_mode_valid layout_valid
input-IsValid fee h = record {
  city = refl;
  street_address = refl;
  monthly_rent = refl;
  area_ping = refl;
  management_fee = h;
  deposit_months = refl;
  rental_mode = refl;
  layout = refl;
}

abbrev bad_update : UpdateInput
bad_update = record no_change { monthly_rent = some "0"; layout = some "CASTLE" }

bad_input-ne_nil : validate world bad_input ≢ []
bad_input-ne_nil h = false≢true (sym ((validate-eq_nil_iff world bad_input).0 h).city)

bad_update-ne_nil : validate_update world bad_update ≢ []
bad_update-ne_nil h = false≢true (sym (IsValidUpdate_of_nil world bad_update h).monthly_rent)

can_transition_iff_example : (can_transition "VACANT" "OCCUPIED" ≡ true) ↔ Edge "VACANT" "OCCUPIED"
can_transition_iff_example = can_transition_iff "VACANT" "OCCUPIED"

names-validate_example :
    let errs = validate world bad_input in
    (names "city" errs ≡ is_blank bad_input.city)
    × (names "street_address" errs ≡ is_blank bad_input.street_address)
    × (names "monthly_rent" errs ≡ not (is_amount world bad_input.monthly_rent))
    × (names "area_ping" errs ≡ not (is_amount world bad_input.area_ping))
    × (names "management_fee" errs ≡ not (is_fee world bad_input.management_fee))
    × (names "deposit_months" errs ≡ ltb_ℤ bad_input.deposit_months (pos 0))
    × (names "rental_mode" errs ≡ not (rental_mode_valid bad_input.rental_mode))
    × (names "layout" errs ≡ not (layout_valid bad_input.layout))
names-validate_example = names-validate world bad_input

validate-eq_nil_iff_example : (validate world (input_with "") ≡ []) ↔ IsValid world (input_with "")
validate-eq_nil_iff_example = validate-eq_nil_iff world (input_with "")

create_blank_fee_example :
    (validate world (input_with "  ") ≡ [])
    × ((e : GoError) × (create world repo 7 1 (input_with "  ") []
          ≡ (err (parse_error "management_fee 解析失敗" e), [])))
create_blank_fee_example =
    create_blank_fee world world-DecimalLaws (input_with "  ") (input-IsValid "  " refl) repo 7 1 []
      refl refl

abbrev second_key : GoError
second_key = pg_error (λ k. "23505")

lost_transition_example :
    let t = finish_update world repo 3 no_change (flat "RENOVATING") (table_of "DELISTED") in
    (rows world find t.1 7 ≡ some (record (flat "RENOVATING") { updated_at = 2 }))
    × (renovating ≡ renovating)
    × ¬ (
        (delisted ≢ renovating)
        × (¬ Edge delisted renovating)
        × Evolves world (flat "DELISTED") (record (flat "RENOVATING") { updated_at = 2 }))
unfolding rows to_domain to_model apply_update Pgrepo.update check_affected
lost_transition_example =
    lost_transition world (rows world find) repo law 3 no_change (flat "RENOVATING")
      (flat "DELISTED") (table_of "DELISTED") refl refl
