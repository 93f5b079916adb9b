-- ===== src/Server.antt =====
-- internal/server/router.go: the middleware around every route, in the order of `NewRouter`, and the
-- access log. A handler is what it does to its writer and whether it panics after that, for the request
-- id that it finds in the context. The clock of the access log is left out, and chi's dispatch to the
-- routes is an argument.
pub mod Chain
pub mod Run
use chuchu.Prelude.{ℕ, Bool, true, String, List, [], ◌∷◌, if◌then◌else◌}
use chuchu.Effect.{Result}
use chuchu.Httpx.{ErrorBody}
use chuchu.Httpx.Guard.{
  Header, set_header, Action, Call, call_write_header, call_write, ensure_json_error,
}
use chuchu.Httpx.Recoverer.{recoverer}

-- What the middleware asks of a request.
pub record RequestLine : Type 0 where
  pub method : String
  pub path : String

-- A line of the access log.
pub record AccessEntry : Type 0 where
  pub request_id : String
  pub method : String
  pub path : String
  pub status : ℕ

pub record StatusRecorder : Type 0 where
  pub status : ℕ

-- `statusRecorder.WriteHeader`, and the `Write` that it inherits: both go on to the writer below.
unfoldable pub record_call : Call → StatusRecorder → Call × StatusRecorder
record_call (call_write_header status h) s =
    (call_write_header status h, record { status = status })
record_call (call_write p) s = (call_write p, s)

unfoldable pub record_calls : List Call → StatusRecorder → List Call × StatusRecorder
record_calls [] s = ([], s)
record_calls (c ∷ cs) s =
    let (c', s') = record_call c s in let (cs', s'') = record_calls cs s' in (c' ∷ cs', s'')

-- `accessLog`, around what the handler below it calls
unfoldable pub access_log : String → RequestLine → List Call → List Call × AccessEntry
access_log request_id r calls =
    let (sent, s) = record_calls calls (record { status = 200 }) in
    (sent, record { request_id = request_id; method = r.method; path = r.path; status = s.status })

-- `httpx.RequestID`: the header that it sets on the response
abbrev pub request_id_header : String → Header → Header
request_id_header request_id h = set_header "X-Request-Id" request_id h

-- The handler of `GET /debug/panic`
abbrev pub debug_panic : String → List Action × Bool
debug_panic request_id = ([], true)

module _ (marshal : ErrorBody → Result String) (encode : ErrorBody → String) where
  -- `NewRouter`: the calls on the writer of the server, and the line of the access log
  unfoldable pub new_router :
      String → RequestLine → Header → (String → List Action × Bool) → List Call × AccessEntry
  new_router request_id r h handler =
      let (actions, panics) = handler request_id in
      access_log request_id r (
        ensure_json_error marshal request_id (request_id_header request_id h)
          (recoverer encode request_id actions panics))
