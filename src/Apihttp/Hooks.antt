-- ===== src/Apihttp/Hooks.antt =====
-- What the error hooks of internal/apihttp answer.
use chuchu.Prelude.{◌≡◌, refl, ap, ◌∙◌, Option, none, some, String, List, [], ◌∷◌}
use chuchu.Apperr.{
  GoError, foreign, Cause, nil, cause, param_error, wrapped, ParamKind, invalid_param_format,
  required_param, unmarshaling_param, too_many_values, required_header, as_error, http_status,
}
use chuchu.Httpx.{write_json, write_error}
use chuchu.Apihttp.{as_param, param_name, param_error_handler}

-- Errors wrapped around another, as `fmt.Errorf` does.
pub wrapped_in : List String → GoError → GoError
wrapped_in [] e = e
wrapped_in (m ∷ ms) e = wrapped m (wrapped_in ms e)

as_param-wrapped :
    (kind : ParamKind) (ms : List String) (e : GoError)
    → as_param kind (wrapped_in ms e) ≡ as_param kind e
unfolding as_param wrapped_in
as_param-wrapped kind [] e = refl
as_param-wrapped kind (m ∷ ms) e = as_param-wrapped kind ms e

param_name-wrapped : (ms : List String) (e : GoError) → param_name (wrapped_in ms e) ≡ param_name e
unfolding param_name
param_name-wrapped ms e = simp (as_param-wrapped)

-- The cause of a parameter error: none, as of the two that say that a parameter is missing or is given
-- more than once, or an error of the parser.
abbrev pub cause_of : Option String → Cause
cause_of none = nil
cause_of (some text) = cause (foreign text)

param_name-kind :
    (kind : ParamKind) (name : String) (text : Option String)
    → param_name (param_error kind name (cause_of text)) ≡ name
unfolding param_name as_param
param_name-kind invalid_param_format name none = refl
param_name-kind invalid_param_format name (some text) = refl
param_name-kind required_param name none = refl
param_name-kind required_param name (some text) = refl
param_name-kind unmarshaling_param name none = refl
param_name-kind unmarshaling_param name (some text) = refl
param_name-kind too_many_values name none = refl
param_name-kind too_many_values name (some text) = refl
param_name-kind required_header name none = refl
param_name-kind required_header name (some text) = refl

-- A parameter that cannot be bound is answered by 400 and the name of the parameter, whichever of the
-- five errors reports it, with or without a cause, and however it is wrapped. The text of its cause does
-- not appear.
pub param_error_handler-names :
    (request_id : String) (kind : ParamKind) (name : String) (text : Option String)
    (ms : List String)
    → param_error_handler request_id (wrapped_in ms (param_error kind name (cause_of text)))
      ≡ write_json 400 (record {
        code = "VALIDATION_FAILED";
        message = "驗證失敗";
        request_id = request_id;
        details = record { field = name; reason = "格式不正確" } ∷ [];
      })
unfolding param_error_handler write_error as_error http_status
param_error_handler-names request_id kind name text ms =
    ap
      (λ (n : String). write_json 400 (record {
        code = "VALIDATION_FAILED";
        message = "驗證失敗";
        request_id = request_id;
        details = record { field = n; reason = "格式不正確" } ∷ [];
      }))
      (param_name-wrapped ms (param_error kind name (cause_of text))
        ∙ param_name-kind kind name text)
