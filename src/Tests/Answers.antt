-- ===== src/Tests/Answers.antt =====
-- The API on properties, its error hooks and the health report at small inputs.
use chuchu.Line
use chuchu.Line.{Event}
use chuchu.Property.{status_valid, layout_valid, rental_mode_valid}
use chuchu.Health.{check}
use chuchu.Api.Enums.{
  change_status_request_status_valid, property_status_valid, list_properties_params_status_valid,
  properties_status_check, create_property_request_layout_valid,
  update_property_request_layout_valid, property_layout_valid, properties_layout_check,
  create_property_request_rental_mode_valid, list_properties_params_rental_mode_valid,
  property_rental_mode_valid, properties_rental_mode_check, health_report_status_valid,
  line_users_status_check, valid-status_valid,
}
use chuchu.Prelude.{pos, ◌≡◌, ◌≢◌, true, false, [], ◌∷◌, none, some, eq_iff}
use mathlib.Core.Bool.{false≢true}
use chuchu.Apperr.{param_error, required_param, nil}
use chuchu.Effect.{◌>>=◌, pure}
use chuchu.Httpx.{write_json}
use chuchu.Property.{Property}
use chuchu.Property.Input.{ListFilter}
use chuchu.Property.Service.{Repository}
use chuchu.Property.Service.Contract.{IsRepository}
use chuchu.Property.Pgrepo.{repository, to_model}
use chuchu.Property.Pgrepo.Refines.{rows, repository-IsRepository}
use chuchu.Property.Httpapi.{ListPropertiesParams, list_properties, to_property_list}
use chuchu.Property.Httpapi.Filter.{IsServed, list_properties-IsServed}
use chuchu.Apihttp.{param_error_handler}
use chuchu.Apihttp.Hooks.{wrapped_in, param_error_handler-names}
use chuchu.Health.{CheckResult}
use chuchu.Tests.World.{world, Table, find, memory, memory-IsDb}

abbrev api_repo : Repository world Table
api_repo = repository world memory

api_law : IsRepository world (rows world find) api_repo
api_law = repository-IsRepository world find memory memory-IsDb

abbrev odd_params : ListPropertiesParams
odd_params = record {
  page = none;
  page_size = some (pos 1000);
  status = some "BOGUS";
  rental_mode = some "MANAGED";
  city = none;
}

list_properties-IsServed_example :
    (f : ListFilter) × IsServed f
    × (list_properties world api_repo odd_params []
        ≡ (api_repo.list f >>= λ r. pure (to_property_list world r)) [])
list_properties-IsServed_example = list_properties-IsServed world api_repo odd_params []

abbrev room : Property world
room = record {
  id = 7;
  city = "台北市";
  district = "大安區";
  street_address = "和平東路 1 號";
  floor = "3";
  room_no = "A";
  layout = "WHOLE_UNIT";
  area_ping = pos 28;
  monthly_rent = pos 25000;
  management_fee = pos 0;
  deposit_months = pos 2;
  rental_mode = "MANAGED";
  status = "VACANT";
  landlord_name = "";
  landlord_phone = "";
  created_at = 0;
  updated_at = 0;
}

abbrev rooms : Table
rooms = to_model world room ∷ []

param_error_handler-names_example :
    param_error_handler "r1" (wrapped_in ("bind: " ∷ []) (param_error required_param "page" nil))
    ≡ write_json 400 (record {
      code = "VALIDATION_FAILED";
      message = "驗證失敗";
      request_id = "r1";
      details = record { field = "page"; reason = "格式不正確" } ∷ [];
    })
param_error_handler-names_example =
    param_error_handler-names "r1" required_param "page" none ("bind: " ∷ [])

abbrev postgres_up : CheckResult
postgres_up = record { name = "postgres"; is_ok = true }

abbrev redis_down : CheckResult
redis_down = record { name = "redis"; is_ok = false }

postgres≢redis : postgres_up.name ≢ redis_down.name
postgres≢redis h = false≢true ((eq_iff postgres_up.name redis_down.name).1 h)

abbrev followed : Event
followed = record { user_id = "U1"; type = "FOLLOW"; occurred_at_millis = pos 5 }

valid-status_valid_example :
    (change_status_request_status_valid "VACANT" ≡ status_valid "VACANT")
    × (property_status_valid "VACANT" ≡ status_valid "VACANT")
    × (list_properties_params_status_valid "VACANT" ≡ status_valid "VACANT")
    × (properties_status_check "VACANT" ≡ status_valid "VACANT")
    × (create_property_request_layout_valid "VACANT" ≡ layout_valid "VACANT")
    × (update_property_request_layout_valid "VACANT" ≡ layout_valid "VACANT")
    × (property_layout_valid "VACANT" ≡ layout_valid "VACANT")
    × (properties_layout_check "VACANT" ≡ layout_valid "VACANT")
    × (create_property_request_rental_mode_valid "VACANT" ≡ rental_mode_valid "VACANT")
    × (list_properties_params_rental_mode_valid "VACANT" ≡ rental_mode_valid "VACANT")
    × (property_rental_mode_valid "VACANT" ≡ rental_mode_valid "VACANT")
    × (properties_rental_mode_check "VACANT" ≡ rental_mode_valid "VACANT")
    × (health_report_status_valid (check []).status ≡ true)
    × (line_users_status_check (Line.status followed) ≡ true)
valid-status_valid_example = valid-status_valid "VACANT" [] followed
