-- ===== src/Apihttp.antt =====
-- internal/apihttp/apihttp.go: the three error hooks of the generated server in api/api.gen.go.
pub mod Hooks
pub mod Mount
use chuchu.Prelude.{Bool, true, false, String, List, [], ◌∷◌, Option, none, some}
use chuchu.Apperr.{
  GoError, app, wrapped, foreign, no_rows, invalid_signature, pg_error, param_error, ParamKind,
  invalid_param_format, required_param, unmarshaling_param, too_many_values, required_header, Cause,
  nil, cause, to_go, with_error, with_message, with_details,
}
use chuchu.Apperr.Sentinel.{validation_failed}
use chuchu.Httpx.{ErrorBody, Response, write_error}

abbrev pub same_kind : ParamKind → ParamKind → Bool
same_kind invalid_param_format invalid_param_format = true
same_kind required_param required_param = true
same_kind unmarshaling_param unmarshaling_param = true
same_kind too_many_values too_many_values = true
same_kind required_header required_header = true
same_kind _ _ = false

abbrev pub or_else : Bool → String → Option String → Option String
or_else true name rest = some name
or_else false name rest = rest

-- `errors.AsType` at the pointer to one of the five types, and the `ParamName` of what it finds
unfoldable mutual
  pub as_param : ParamKind → GoError → Option String
  as_param kind (app c m d k) = cause_as_param kind k
  as_param kind (wrapped m e) = as_param kind e
  as_param kind (foreign m) = none
  as_param kind no_rows = none
  as_param kind invalid_signature = none
  as_param kind (pg_error f) = none
  as_param kind (param_error k name c) = or_else (same_kind kind k) name (cause_as_param kind c)

  pub cause_as_param : ParamKind → Cause → Option String
  cause_as_param kind nil = none
  cause_as_param kind (cause e) = as_param kind e

-- The types that `paramName` asks for, in its order.
abbrev pub kinds : List ParamKind
kinds =
    invalid_param_format ∷ required_param ∷ unmarshaling_param ∷ too_many_values ∷ required_header
    ∷ []

abbrev pub name_or : Option String → String → String
name_or none rest = rest
name_or (some name) rest = name

abbrev pub first_name : List ParamKind → GoError → String
first_name [] e = ""
first_name (kind ∷ ks) e = name_or (as_param kind e) (first_name ks e)

unfoldable pub param_name : GoError → String
param_name e = first_name kinds e

unfoldable pub param_error_handler : String → GoError → Response ErrorBody
param_error_handler request_id e = write_error request_id (
    to_go (
      with_error e
        (with_details (record { field = param_name e; reason = "格式不正確" } ∷ []) validation_failed)))

unfoldable pub request_error_handler : String → GoError → Response ErrorBody
request_error_handler request_id e =
    write_error request_id (to_go (with_error e (with_message "無法解析請求 JSON" validation_failed)))

unfoldable pub response_error_handler : String → GoError → Response ErrorBody
response_error_handler request_id e = write_error request_id e
