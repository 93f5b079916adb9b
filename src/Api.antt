-- ===== src/Api.antt =====
-- api/api.gen.go: the generated server. This file has its response objects with their `Visit` methods,
-- the interface that it calls, and the hooks that it is given. `json.NewEncoder(&buf).Encode` is a
-- parameter, and a write to the client does not fail.
pub mod Strict
pub mod Wrapper
pub mod Statuses
pub mod Enums
use chuchu.Prelude.{ℕ, String, List, [], ◌∷◌, Option}
use chuchu.Apperr.{GoError}
use chuchu.Effect.{Result, ok, err, Exec, and_then}
use chuchu.Outside.{Outside}
use chuchu.Httpx.{ErrorBody}
use chuchu.Httpx.Guard.{Action, sets, writes_header, writes}
use chuchu.Health.{Report, GetHealthzResponseObject, get_healthz_200, get_healthz_503}
use chuchu.Property.Httpapi.{
  CreatePropertyRequest, UpdatePropertyRequest, ListPropertiesParams, ApiProperty, PropertyList,
}

-- `ChangeStatusRequest`
pub record ChangeStatusRequest : Type 0 where
  pub status : String

-- What the `Visit` methods encode.
pub data Json (o : Outside) : Type 0 where
  json_property : ApiProperty o → Json o
  json_list : PropertyList o → Json o
  json_health : Report → Json o
  json_error : ErrorBody → Json o

pub data ListPropertiesResponseObject (o : Outside) : Type 0 where
  list_properties_200 : PropertyList o → ListPropertiesResponseObject o
  list_properties_400 : ErrorBody → ListPropertiesResponseObject o

pub data CreatePropertyResponseObject (o : Outside) : Type 0 where
  create_property_201 : ApiProperty o → CreatePropertyResponseObject o
  create_property_400 create_property_409 : ErrorBody → CreatePropertyResponseObject o

pub data GetPropertyResponseObject (o : Outside) : Type 0 where
  get_property_200 : ApiProperty o → GetPropertyResponseObject o
  get_property_400 get_property_404 : ErrorBody → GetPropertyResponseObject o

pub data UpdatePropertyResponseObject (o : Outside) : Type 0 where
  update_property_200 : ApiProperty o → UpdatePropertyResponseObject o
  update_property_400 update_property_404 : ErrorBody → UpdatePropertyResponseObject o

pub data ChangePropertyStatusResponseObject (o : Outside) : Type 0 where
  change_property_status_200 : ApiProperty o → ChangePropertyStatusResponseObject o
  change_property_status_400 change_property_status_404 change_property_status_409 :
      ErrorBody → ChangePropertyStatusResponseObject o

-- The body of every `Visit` method: into a buffer first, so that nothing is sent if that fails
abbrev pub visit_json : {o : Outside} → (Json o → Result String) → ℕ → Json o → Result (List Action)
visit_json encode status body =
    and_then (encode body)
      λ text. ok (sets "Content-Type" "application/json" ∷ writes_header status ∷ writes text ∷ [])

module _ {o : Outside} (encode : Json o → Result String) where
  unfoldable pub visit_list_properties : ListPropertiesResponseObject o → Result (List Action)
  visit_list_properties (list_properties_200 b) = visit_json encode 200 (json_list b)
  visit_list_properties (list_properties_400 b) = visit_json encode 400 (json_error b)

  unfoldable pub visit_create_property : CreatePropertyResponseObject o → Result (List Action)
  visit_create_property (create_property_201 b) = visit_json encode 201 (json_property b)
  visit_create_property (create_property_400 b) = visit_json encode 400 (json_error b)
  visit_create_property (create_property_409 b) = visit_json encode 409 (json_error b)

  unfoldable pub visit_get_property : GetPropertyResponseObject o → Result (List Action)
  visit_get_property (get_property_200 b) = visit_json encode 200 (json_property b)
  visit_get_property (get_property_400 b) = visit_json encode 400 (json_error b)
  visit_get_property (get_property_404 b) = visit_json encode 404 (json_error b)

  unfoldable pub visit_update_property : UpdatePropertyResponseObject o → Result (List Action)
  visit_update_property (update_property_200 b) = visit_json encode 200 (json_property b)
  visit_update_property (update_property_400 b) = visit_json encode 400 (json_error b)
  visit_update_property (update_property_404 b) = visit_json encode 404 (json_error b)

  unfoldable pub visit_change_property_status :
      ChangePropertyStatusResponseObject o → Result (List Action)
  visit_change_property_status (change_property_status_200 b) =
      visit_json encode 200 (json_property b)
  visit_change_property_status (change_property_status_400 b) = visit_json encode 400 (json_error b)
  visit_change_property_status (change_property_status_404 b) = visit_json encode 404 (json_error b)
  visit_change_property_status (change_property_status_409 b) = visit_json encode 409 (json_error b)

  unfoldable pub visit_get_healthz : GetHealthzResponseObject → Result (List Action)
  visit_get_healthz (get_healthz_200 b) = visit_json encode 200 (json_health b)
  visit_get_healthz (get_healthz_503 b) = visit_json encode 503 (json_health b)

-- `StrictServerInterface`: a nil body is `none`.
pub record StrictServerInterface (o : Outside) (S : Type 0) : Type 0 where
  pub list_properties : ListPropertiesParams → Exec S (ListPropertiesResponseObject o)
  pub create_property : Option CreatePropertyRequest → Exec S (CreatePropertyResponseObject o)
  pub get_property : o.Uuid → Exec S (GetPropertyResponseObject o)
  pub update_property :
      o.Uuid → Option UpdatePropertyRequest → Exec S (UpdatePropertyResponseObject o)
  pub change_property_status :
      o.Uuid → Option ChangeStatusRequest → Exec S (ChangePropertyStatusResponseObject o)
  pub get_healthz : Exec S GetHealthzResponseObject

-- The three hooks, of `StrictHTTPServerOptions` and `ChiServerOptions`: what each does to the writer.
pub record ErrorHandlers : Type 0 where
  pub request_error_handler : GoError → List Action
  pub response_error_handler : GoError → List Action
  pub param_error_handler : GoError → List Action

-- A handler of a request, over the state of the databases.
abbrev pub Handler : Type 0 → Type 0
Handler S = S → List Action × S
