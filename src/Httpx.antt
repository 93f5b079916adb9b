-- ===== src/Httpx.antt =====
-- internal/httpx: the JSON responses of errors (json.go); Httpx/Guard has the handler of safetynet.go.
-- A response is what the server hands to `WriteHeader` and, as the value to encode, to
-- `json.NewEncoder(w).Encode`; the log is left out.
pub mod Answers
pub mod Guard
pub mod Recoverer
pub mod RequestId
pub mod Failures
use chuchu.Prelude.{ℕ, String, List, [], ◌∷◌, Option, none, some}
use chuchu.Apperr.{Code, FieldError, Error, GoError, new, internal, http_status, as_error}

pub record ErrorBody : Type 0 where
  pub code : Code
  pub message : String
  pub request_id : String
  pub details : List FieldError

-- `WriteJSON`: the content type, the status and the value to encode
pub record Response (A : Type 0) : Type 0 where
  pub content_type : String
  pub status : ℕ
  pub body : A

unfoldable pub write_json : {A : Type 0} → ℕ → A → Response A
write_json status v = record {
  content_type = "application/json; charset=utf-8";
  status = status;
  body = v;
}

-- `appErr` of `WriteError`, after the degradation
abbrev pub degraded : Option Error → Error
degraded none = new internal "internal server error"
degraded (some e) = e

unfoldable pub write_error : String → GoError → Response ErrorBody
unfolding write_json
write_error request_id err =
    let e = degraded (as_error err) in
    write_json (http_status e.code)
      (record { code = e.code; message = e.message; request_id = request_id; details = e.details })
