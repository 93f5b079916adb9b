-- ===== src/Httpx/Guard.antt =====
-- internal/httpx/safetynet.go: `jsonErrorGuard`, between a handler and the writer of the server. A
-- handler is the list of what it does to the writer; the guard turns it into calls on the writer
-- below. The log is left out. `json.Marshal` is a parameter.
pub mod Transparent
use Prim.Native.String.{len}
use chuchu.Prelude.{
  ℕ, ltb, Bool, true, false, not, ◌||◌, String, has_prefix, List, [], ◌∷◌, ◌++◌, ◌==◌,
  if◌then◌else◌,
}
use chuchu.Apperr.{internal}
use chuchu.Effect.{Result, ok, err}
use chuchu.Httpx.{ErrorBody}

-- `http.Header`, as `Get` reads it: the empty string for a missing key. The keys are in the canonical
-- form, in which the code writes all of them.
abbrev pub Header : Type 0
Header = String → String

abbrev pub set_header : String → String → Header → Header
set_header key value h k = if k == key then value else h k

abbrev pub del_header : String → Header → Header
del_header key h k = if k == key then "" else h k

-- What a handler does to its writer.
pub data Action : Type 0 where
  sets : String → String → Action
  deletes : String → Action
  writes_header : ℕ → Action
  writes : String → Action

-- A call on the writer below, with the headers at that moment.
pub data Call : Type 0 where
  call_write_header : ℕ → Header → Call
  call_write : String → Call

-- `jsonErrorGuard`, with the headers that it shares with the writer below
pub record JsonErrorGuard : Type 0 where
  pub header : Header
  pub wrote_header : Bool
  pub intercepted : Bool

abbrev pub body_or_empty : Result String → String
body_or_empty (ok body) = body
body_or_empty (err e) = "{}"

-- `status < http.StatusBadRequest || strings.HasPrefix(contentType, "application/json")`
abbrev pub passes : ℕ → Header → Bool
passes status h = ltb status 400 || has_prefix (h "Content-Type") "application/json"

-- `Del` of the length and `Set` of the type
abbrev pub rewritten : Header → Header
rewritten h =
    set_header "Content-Type" "application/json; charset=utf-8" (del_header "Content-Length" h)

module _ (marshal : ErrorBody → Result String) (request_id : String) where
  unfoldable pub replacement : String
  replacement = body_or_empty (
      marshal (record {
        code = internal;
        message = "internal server error";
        request_id = request_id;
        details = [];
      }))

  -- `jsonErrorGuard.WriteHeader`
  unfoldable pub write_header : ℕ → JsonErrorGuard → List Call × JsonErrorGuard
  write_header status g =
      if g.wrote_header
      then ([], g)
      else if passes status g.header
      then (call_write_header status g.header ∷ [], record g { wrote_header = true })
      else (
        call_write_header status (rewritten g.header) ∷ call_write replacement ∷ [],
        record { header = rewritten g.header; wrote_header = true; intercepted = true },
      )

  -- `jsonErrorGuard.Write`, after its implicit `WriteHeader(http.StatusOK)`
  abbrev pub write_body : String → List Call × JsonErrorGuard → List Call × JsonErrorGuard
  write_body p (calls, g) = if g.intercepted then (calls, g) else (calls ++ (call_write p ∷ []), g)

  unfoldable pub write : String → JsonErrorGuard → List Call × JsonErrorGuard
  write p g = write_body p (if g.wrote_header then ([], g) else write_header 200 g)

  -- What `Write` returns: the number of bytes, or an error, by what `Write` of the writer below returns
  unfoldable pub write_returns : (String → Result ℕ) → String → JsonErrorGuard → Result ℕ
  write_returns below p g =
      let h = if g.wrote_header then g else (write_header 200 g).1 in
      if h.intercepted then ok (len p) else below p

  unfoldable pub step : Action → JsonErrorGuard → List Call × JsonErrorGuard
  step (sets key value) g = ([], record g { header = set_header key value g.header })
  step (deletes key) g = ([], record g { header = del_header key g.header })
  step (writes_header status) g = write_header status g
  step (writes p) g = write p g

  -- `EnsureJSONError`: the calls that a handler behind the guard makes on the writer below
  unfoldable pub guarded : List Action → JsonErrorGuard → List Call
  guarded [] g = []
  guarded (a ∷ as') g = let (calls, h) = step a g in calls ++ guarded as' h

  -- `EnsureJSONError` makes a guard for each request.
  unfoldable pub ensure_json_error : Header → List Action → List Call
  ensure_json_error h actions =
      guarded actions (record { header = h; wrote_header = false; intercepted = false })
