-- ===== src/Api/Wrapper.antt =====
-- `ServerInterfaceWrapper` and `HandlerWithOptions` of api/api.gen.go: the parameters of a request are
-- bound one after the other, and the first that fails is reported. What oapi-codegen's runtime makes of
-- a parameter is an argument, as is the route that chi finds.
use chuchu.Prelude.{ℤ, Bool, true, false, String, Option}
use chuchu.Apperr.{GoError, param_error, required_param, invalid_param_format, nil, cause}
use chuchu.Effect.{Result, ok, err}
use chuchu.Outside.{Outside}
use chuchu.Property.Httpapi.{CreatePropertyRequest, UpdatePropertyRequest}
use chuchu.Api.{ChangeStatusRequest, Json, StrictServerInterface, ErrorHandlers, Handler}
use chuchu.Api.Strict.{
  strict_list_properties, strict_create_property, strict_get_property, strict_update_property,
  strict_change_property_status, strict_get_healthz,
}

-- `BindQueryParameterWithOptions`: a value, or an error and whether a `RequiredParameterError` is in
-- its chain
pub data Bound (A : Type 0) : Type 0 where
  bound : A → Bound A
  not_bound : Bool → GoError → Bound A

pub record ListQuery : Type 0 where
  pub page : Bound (Option ℤ)
  pub page_size : Bound (Option ℤ)
  pub status : Bound (Option String)
  pub rental_mode : Bound (Option String)
  pub city : Bound (Option String)

abbrev pub bind_query :
    {A S : Type 0} → ErrorHandlers → String → Bound A → (A → Handler S) → Handler S
bind_query options name (bound a) next s = next a s
bind_query options name (not_bound true e) next s =
    (options.param_error_handler (param_error required_param name nil), s)
bind_query options name (not_bound false e) next s =
    (options.param_error_handler (param_error invalid_param_format name (cause e)), s)

-- `BindStyledParameterWithOptions` for the parameter `id` of the path
abbrev pub bind_id : {A S : Type 0} → ErrorHandlers → Result A → (A → Handler S) → Handler S
bind_id options (ok id) next s = next id s
bind_id options (err e) next s =
    (options.param_error_handler (param_error invalid_param_format "id" (cause e)), s)

-- The routes of `HandlerWithOptions`, with what the parameters are bound to and the body is decoded to
pub data Operation (o : Outside) : Type 0 where
  get_healthz : Operation o
  list_properties : ListQuery → Operation o
  create_property : Result CreatePropertyRequest → Operation o
  get_property : Result o.Uuid → Operation o
  update_property : Result o.Uuid → Result UpdatePropertyRequest → Operation o
  change_property_status : Result o.Uuid → Result ChangeStatusRequest → Operation o

module _ {o : Outside} {S : Type 0} (encode : Json o → Result String)
    (ssi : StrictServerInterface o S) (options : ErrorHandlers) where
  -- `ServerInterfaceWrapper.ListProperties`
  unfoldable pub wrap_list_properties : ListQuery → Handler S
  wrap_list_properties q = bind_query options "page" q.page λ page.
      bind_query options "page_size" q.page_size λ page_size.
        bind_query options "status" q.status λ status.
          bind_query options "rental_mode" q.rental_mode λ rental_mode.
            bind_query options "city" q.city λ city.
              strict_list_properties encode ssi options (record {
                page = page;
                page_size = page_size;
                status = status;
                rental_mode = rental_mode;
                city = city;
              })

  unfoldable pub wrap_get_property : Result o.Uuid → Handler S
  wrap_get_property id = bind_id options id (strict_get_property encode ssi options)

  unfoldable pub wrap_update_property : Result o.Uuid → Result UpdatePropertyRequest → Handler S
  wrap_update_property id decoded =
      bind_id options id (strict_update_property encode ssi options decoded)

  unfoldable pub wrap_change_property_status :
      Result o.Uuid → Result ChangeStatusRequest → Handler S
  wrap_change_property_status id decoded =
      bind_id options id (strict_change_property_status encode ssi options decoded)

  -- `HandlerWithOptions`
  unfoldable pub handler_with_options : Operation o → Handler S
  handler_with_options get_healthz = strict_get_healthz encode ssi options
  handler_with_options (list_properties q) = wrap_list_properties q
  handler_with_options (create_property decoded) = strict_create_property encode ssi options decoded
  handler_with_options (get_property id) = wrap_get_property id
  handler_with_options (update_property id decoded) = wrap_update_property id decoded
  handler_with_options (change_property_status id decoded) = wrap_change_property_status id decoded
