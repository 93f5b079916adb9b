-- ===== src/Apperr.antt =====
-- internal/apperr/apperr.go: the application error, its sentinels, and the map from codes to HTTP
-- statuses. `GoError` stands for Go's `error`, as the chain that `errors.Is` and `errors.AsType`
-- walk; the errors of other packages that the program asks about are constructors of it.
pub mod Sentinel
pub mod Chain
pub mod Sharing
use chuchu.Prelude.{
  ℕ, Bool, true, false, ◌||◌, String, List, [], Option, none, some, ◌==◌, if◌then◌else◌,
}

-- A `Code` is a Go string.
abbrev pub Code : Type 0
Code = String

pub record FieldError : Type 0 where
  pub field : String
  pub reason : String

-- The five parameter errors of api/api.gen.go that `paramName` asks for.
pub data ParamKind : Type 0 where
  invalid_param_format required_param unmarshaling_param too_many_values required_header : ParamKind

-- `Cause` is an `error` field that may be nil.
mutual
  pub data GoError : Type 0 where
    -- `*apperr.Error`: code, message, details, err
    app : Code → String → List FieldError → Cause → GoError
    -- `fmt.Errorf("…: %w", err)`: the text before the wrapped error
    wrapped : String → GoError → GoError
    -- any other error, by its text
    foreign : String → GoError
    -- `sql.ErrNoRows`
    no_rows : GoError
    -- `webhook.ErrInvalidSignature`
    invalid_signature : GoError
    -- `pgdriver.Error`, by its method `Field`
    pg_error : (ℕ → String) → GoError
    -- a parameter error of the generated binding, with its `ParamName` and what it wraps: `nil` for a
    -- missing parameter and for one with too many values, which have no `Err`
    param_error : ParamKind → String → Cause → GoError

  pub data Cause : Type 0 where
    nil : Cause
    cause : GoError → Cause

-- `Error`. A nil and an empty `Details` are one list: no reader tells them apart.
pub record Error : Type 0 where
  pub code : Code
  pub message : String
  pub details : List FieldError
  pub err : Cause

-- A `*Error` as an `error`.
abbrev pub to_go : Error → GoError
to_go e = app e.code e.message e.details e.err

abbrev pub validation_failed : Code
validation_failed = "VALIDATION_FAILED"

abbrev pub property_not_found : Code
property_not_found = "PROPERTY_NOT_FOUND"

abbrev pub property_duplicate : Code
property_duplicate = "PROPERTY_DUPLICATE"

abbrev pub invalid_status_transition : Code
invalid_status_transition = "PROPERTY_INVALID_STATUS_TRANSITION"

abbrev pub line_signature_invalid : Code
line_signature_invalid = "LINE_SIGNATURE_INVALID"

abbrev pub internal : Code
internal = "INTERNAL"

-- `New`
abbrev pub new : Code → String → Error
new code msg = record { code = code; message = msg; details = []; err = nil }

-- `Wrap`
abbrev pub wrap : Code → String → GoError → Error
wrap code msg err = record { code = code; message = msg; details = []; err = cause err }

-- `Validation`
abbrev pub validation : List FieldError → Error
validation details = record {
  code = validation_failed;
  message = "驗證失敗";
  details = details;
  err = nil;
}

-- `WithError`, `WithMessage` and `WithDetails` as functions of values. Apperr/Sharing has them over
-- pointers, and that the pointers read so.
abbrev pub with_error : GoError → Error → Error
with_error err e = record e { err = cause err }

abbrev pub with_message : String → Error → Error
with_message msg e = record e { message = msg }

abbrev pub with_details : List FieldError → Error → Error
with_details details e = record e { details = details }

-- `HTTPStatus`
unfoldable pub http_status : Code → ℕ
http_status code =
    if code == "VALIDATION_FAILED"
    then 400
    else if code == "PROPERTY_NOT_FOUND"
    then 404
    else if code == "PROPERTY_DUPLICATE"
    then 409
    else if code == "PROPERTY_INVALID_STATUS_TRANSITION"
    then 409
    else if code == "LINE_SIGNATURE_INVALID"
    then 401
    else if code == "INTERNAL"
    then 500
    else 500

-- `err == target || err.Is(target)` at one error of the chain: the method `Is` of `*Error` looks at
-- the codes alone, and the other targets of the program are compared as values.
abbrev is_target : GoError → GoError → Bool
is_target (app code _ _ _) (app code' _ _ _) = code == code'
is_target no_rows no_rows = true
is_target invalid_signature invalid_signature = true
is_target _ _ = false

-- `errors.Is` and `errors.AsType[*apperr.Error]` of the standard library: along `Unwrap`.
unfoldable mutual
  pub errors_is : GoError → GoError → Bool
  errors_is (app c m d k) target = is_target (app c m d k) target || cause_is k target
  errors_is (wrapped m e) target = is_target (wrapped m e) target || errors_is e target
  errors_is (foreign m) target = is_target (foreign m) target
  errors_is no_rows target = is_target no_rows target
  errors_is invalid_signature target = is_target invalid_signature target
  errors_is (pg_error f) target = is_target (pg_error f) target
  errors_is (param_error k n c) target = is_target (param_error k n c) target || cause_is c target

  pub cause_is : Cause → GoError → Bool
  cause_is nil target = false
  cause_is (cause e) target = errors_is e target

unfoldable mutual
  pub as_error : GoError → Option Error
  as_error (app c m d k) = some (record { code = c; message = m; details = d; err = k })
  as_error (wrapped m e) = as_error e
  as_error (foreign m) = none
  as_error no_rows = none
  as_error invalid_signature = none
  as_error (pg_error f) = none
  as_error (param_error k n c) = cause_as_error c

  pub cause_as_error : Cause → Option Error
  cause_as_error nil = none
  cause_as_error (cause e) = as_error e
