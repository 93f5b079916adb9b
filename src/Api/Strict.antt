-- ===== src/Api/Strict.antt =====
-- `strictHandler` of api/api.gen.go: it decodes the body, calls the interface and visits the response.
-- `Decode` of a body is an argument. The branch for a response of another type is left out, as the
-- types of the interface rule it out.
use chuchu.Prelude.{String, List, some}
use chuchu.Apperr.{wrapped}
use chuchu.Effect.{Result, ok, err}
use chuchu.Outside.{Outside}
use chuchu.Httpx.Guard.{Action}
use chuchu.Property.Httpapi.{CreatePropertyRequest, UpdatePropertyRequest, ListPropertiesParams}
use chuchu.Api.{
  ChangeStatusRequest, Json, visit_list_properties, visit_create_property, visit_get_property,
  visit_update_property, visit_change_property_status, visit_get_healthz, StrictServerInterface,
  ErrorHandlers, Handler,
}

abbrev pub or_report : ErrorHandlers → Result (List Action) → List Action
or_report options (ok actions) = actions
or_report options (err e) = options.response_error_handler e

-- The end of every operation, on what the interface returned.
abbrev pub respond :
    {R : Type 0} → ErrorHandlers → (R → Result (List Action)) → Result R → List Action
respond options visit (ok response) = or_report options (visit response)
respond options visit (err e) = options.response_error_handler e

-- The decoding of the body, in front of what follows it.
abbrev pub with_body : {S B : Type 0} → ErrorHandlers → Result B → (B → Handler S) → Handler S
with_body options (ok body) next s = next body s
with_body options (err e) next s =
    (options.request_error_handler (wrapped "can't decode JSON body: " e), s)

module _ {o : Outside} {S : Type 0} (encode : Json o → Result String)
    (ssi : StrictServerInterface o S) (options : ErrorHandlers) where
  unfoldable pub strict_list_properties : ListPropertiesParams → Handler S
  strict_list_properties params s =
      let (response, t) = ssi.list_properties params s in
      (respond options (visit_list_properties encode) response, t)

  unfoldable pub strict_create_property : Result CreatePropertyRequest → Handler S
  strict_create_property decoded = with_body options decoded λ body s.
      let (response, t) = ssi.create_property (some body) s in
      (respond options (visit_create_property encode) response, t)

  unfoldable pub strict_get_property : o.Uuid → Handler S
  strict_get_property id s =
      let (response, t) = ssi.get_property id s in
      (respond options (visit_get_property encode) response, t)

  unfoldable pub strict_update_property : Result UpdatePropertyRequest → o.Uuid → Handler S
  strict_update_property decoded id = with_body options decoded λ body s.
      let (response, t) = ssi.update_property id (some body) s in
      (respond options (visit_update_property encode) response, t)

  unfoldable pub strict_change_property_status : Result ChangeStatusRequest → o.Uuid → Handler S
  strict_change_property_status decoded id = with_body options decoded λ body s.
      let (response, t) = ssi.change_property_status id (some body) s in
      (respond options (visit_change_property_status encode) response, t)

  unfoldable pub strict_get_healthz : Handler S
  strict_get_healthz s =
      let (response, t) = ssi.get_healthz s in
      (respond options (visit_get_healthz encode) response, t)
