-- ===== src/Property/Httpapi.antt =====
-- internal/property/httpapi/httpapi.go: the five operations of the API on properties, between the
-- types of the generated server in api and the service. A nil pointer is `none`.
pub mod Filter
pub mod Changes
pub mod Creates
pub mod Updates
pub mod Failures
use mathlib.Core.Option
use chuchu.Prelude.{
  ℤ, pos, Bool, not, String, List, [], ◌∷◌, map, Option, none, some, if◌then◌else◌,
}
use chuchu.Apperr.{GoError, FieldError, to_go, validation, with_message}
use chuchu.Apperr.Sentinel.{validation_failed}
use chuchu.Effect.{Exec, pure, raise, ◌>>=◌}
use chuchu.Outside.{Outside}
use chuchu.Property.{Status, RentalMode, Property, status_valid, rental_mode_valid}
use chuchu.Property.Input.{CreateInput, UpdateInput, ListFilter, ListResult}
use chuchu.Property.Service
use chuchu.Property.Service.{Repository, change_status}

-- `api.CreatePropertyRequest`
pub record CreatePropertyRequest : Type 0 where
  pub area_ping : String
  pub city : String
  pub deposit_months : ℤ
  pub district : String
  pub floor : String
  pub landlord_name : String
  pub landlord_phone : String
  pub layout : String
  pub management_fee : Option String
  pub monthly_rent : String
  pub rental_mode : String
  pub room_no : String
  pub street_address : String

-- `api.UpdatePropertyRequest`
pub record UpdatePropertyRequest : Type 0 where
  pub deposit_months : Option ℤ
  pub landlord_name : Option String
  pub landlord_phone : Option String
  pub layout : Option String
  pub management_fee : Option String
  pub monthly_rent : Option String

-- `api.ListPropertiesParams`
pub record ListPropertiesParams : Type 0 where
  pub page : Option ℤ
  pub page_size : Option ℤ
  pub status : Option String
  pub rental_mode : Option String
  pub city : Option String

-- `api.Property`
pub record ApiProperty (o : Outside) : Type 0 where
  pub id : o.Uuid
  pub city : String
  pub district : String
  pub street_address : String
  pub floor : String
  pub room_no : String
  pub layout : String
  pub area_ping : String
  pub monthly_rent : String
  pub management_fee : String
  pub deposit_months : ℤ
  pub rental_mode : String
  pub status : String
  pub landlord_name : String
  pub landlord_phone : String
  pub created_at : o.Time
  pub updated_at : o.Time

-- `api.PropertyList`
pub record PropertyList (o : Outside) : Type 0 where
  pub items : List (ApiProperty o)
  pub total : ℤ

-- A given value that is valid; an invalid one counts as not given.
abbrev pub if_valid : (String → Bool) → Option String → Option String
if_valid valid none = none
if_valid valid (some s) = if valid s then some s else none

unfoldable pub to_list_filter : ListPropertiesParams → ListFilter
to_list_filter params = record {
  page = Option.get_or params.page (pos 0);
  page_size = Option.get_or params.page_size (pos 0);
  status = if_valid status_valid params.status;
  rental_mode = if_valid rental_mode_valid params.rental_mode;
  city = Option.get_or params.city "";
}

abbrev pub to_create_input : CreatePropertyRequest → CreateInput
to_create_input body = record {
  city = body.city;
  district = body.district;
  street_address = body.street_address;
  floor = body.floor;
  room_no = body.room_no;
  layout = body.layout;
  area_ping = body.area_ping;
  monthly_rent = body.monthly_rent;
  management_fee = Option.get_or body.management_fee "";
  deposit_months = body.deposit_months;
  rental_mode = body.rental_mode;
  landlord_name = body.landlord_name;
  landlord_phone = body.landlord_phone;
}

abbrev pub to_update_input : UpdatePropertyRequest → UpdateInput
to_update_input body = record {
  monthly_rent = body.monthly_rent;
  management_fee = body.management_fee;
  deposit_months = body.deposit_months;
  layout = body.layout;
  landlord_name = body.landlord_name;
  landlord_phone = body.landlord_phone;
}

-- `apperr.ValidationFailed.WithMessage("request body 不可為空")`
abbrev pub empty_body : GoError
empty_body = to_go (with_message "request body 不可為空" validation_failed)

abbrev pub status_invalid : GoError
status_invalid = to_go (
    validation
      (record { field = "status"; reason = "必須是 VACANT、OCCUPIED、RENOVATING 或 DELISTED 之一" } ∷ []))

module _ (o : Outside) where
  abbrev pub format_money : o.Decimal → String
  format_money d = o.string_fixed d 2

  unfoldable pub to_api_property : Property o → ApiProperty o
  to_api_property p = record {
    id = p.id;
    city = p.city;
    district = p.district;
    street_address = p.street_address;
    floor = p.floor;
    room_no = p.room_no;
    layout = p.layout;
    area_ping = format_money p.area_ping;
    monthly_rent = format_money p.monthly_rent;
    management_fee = format_money p.management_fee;
    deposit_months = p.deposit_months;
    rental_mode = p.rental_mode;
    status = p.status;
    landlord_name = p.landlord_name;
    landlord_phone = p.landlord_phone;
    created_at = p.created_at;
    updated_at = p.updated_at;
  }

  abbrev pub to_property_list : ListResult o → PropertyList o
  to_property_list r = record { items = map to_api_property r.items; total = r.total }

  module _ {S : Type 0} (repo : Repository o S) where
    unfoldable pub list_properties : ListPropertiesParams → Exec S (PropertyList o)
    list_properties params = do
      result ← Service.list o repo (to_list_filter params)
      pure (to_property_list result)

    unfoldable pub create_property :
        o.Uuid → o.Time → Option CreatePropertyRequest → Exec S (ApiProperty o)
    create_property id now none = raise empty_body
    create_property id now (some body) = do
      p ← Service.create o repo id now (to_create_input body)
      pure (to_api_property p)

    unfoldable pub get_property : o.Uuid → Exec S (ApiProperty o)
    get_property id = do p ← Service.get o repo id; pure (to_api_property p)

    unfoldable pub update_property :
        o.Time → o.Uuid → Option UpdatePropertyRequest → Exec S (ApiProperty o)
    update_property now id none = raise empty_body
    update_property now id (some body) = do
      p ← Service.update o repo now id (to_update_input body)
      pure (to_api_property p)

    unfoldable pub change_property_status : o.Time → o.Uuid → Option String → Exec S (ApiProperty o)
    change_property_status now id none = raise empty_body
    change_property_status now id (some target) =
        if not (status_valid target)
        then raise status_invalid
        else do p ← change_status o repo now id target; pure (to_api_property p)
