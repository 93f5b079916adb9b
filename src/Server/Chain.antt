-- ===== src/Server/Chain.antt =====
-- What the middleware of internal/server/router.go guarantees for every route, together with the
-- guard and the recoverer of internal/httpx.
use chuchu.Prelude.{
  ℕ, ltb, ◌≡◌, refl, ap, sym, Bool, true, ◌||◌, Bool-cases, inl, inr, String, List, [], ◌∷◌, All,
}
use chuchu.Effect.{Result}
use chuchu.Httpx.{ErrorBody}
use chuchu.Httpx.Guard.{
  Header, Action, sets, deletes, writes_header, writes, Call, call_write_header, call_write, passes,
  set_header, del_header,
}
use chuchu.Httpx.Guard.Transparent.{
  IsFinal, served, served-plain, plain, bodies, protect, ensure_json_error-plain,
}
use chuchu.Httpx.Recoverer.{recoverer, recoverer-IsFinal}
use chuchu.Server.{
  RequestLine, StatusRecorder, record_call, record_calls, access_log, request_id_header, new_router,
}

-- The status of a response, as net/http documents it: that of the first `WriteHeader`, which is not a
-- status 1xx that another follows, and 200 if there is none before the body or the end.
unfoldable pub sent_status : List Call → ℕ
sent_status [] = 200
sent_status (call_write_header status h ∷ cs) = status
sent_status (call_write p ∷ cs) = 200

-- An error response is marked as JSON.
abbrev pub IsJsonOnError : Call → Type 0
IsJsonOnError (call_write_header status h) = passes status h ≡ true
IsJsonOnError (call_write p) = Unit

abbrev IsBody : Call → Type 0
IsBody (call_write_header status h) = ⊥
IsBody (call_write p) = Unit

-- No more than one `WriteHeader`, and that in front.
abbrev pub IsOneResponse : List Call → Type 0
IsOneResponse [] = Unit
IsOneResponse (call_write_header status h ∷ cs) = All IsBody cs
IsOneResponse (call_write p ∷ cs) = All IsBody cs

bodies-IsBody : (as' : List Action) → All IsBody (bodies as')
unfolding bodies
bodies-IsBody [] = tt
bodies-IsBody (sets key value ∷ as') = bodies-IsBody as'
bodies-IsBody (deletes key ∷ as') = bodies-IsBody as'
bodies-IsBody (writes_header status ∷ as') = bodies-IsBody as'
bodies-IsBody (writes p ∷ as') = (tt, bodies-IsBody as')

plain-IsOneResponse : (h : Header) (as' : List Action) → IsOneResponse (plain h as')
unfolding plain
plain-IsOneResponse h [] = tt
plain-IsOneResponse h (sets key value ∷ as') = plain-IsOneResponse (set_header key value h) as'
plain-IsOneResponse h (deletes key ∷ as') = plain-IsOneResponse (del_header key h) as'
plain-IsOneResponse h (writes_header status ∷ as') = bodies-IsBody as'
plain-IsOneResponse h (writes p ∷ as') = (tt, bodies-IsBody as')

IsBody-IsJsonOnError : (cs : List Call) → All IsBody cs → All IsJsonOnError cs
IsBody-IsJsonOnError [] q = tt
IsBody-IsJsonOnError (call_write_header status h ∷ cs) q = absurd q.0
IsBody-IsJsonOnError (call_write p ∷ cs) q = (tt, IsBody-IsJsonOnError cs q.1)

record_calls-IsBody :
    (cs : List Call) (s : StatusRecorder) → All IsBody cs → record_calls cs s ≡ (cs, s)
unfolding record_calls record_call
record_calls-IsBody [] s q = refl
record_calls-IsBody (call_write_header status h ∷ cs) s q = absurd q.0
record_calls-IsBody (call_write p ∷ cs) s q = rw (record_calls-IsBody cs s q.1) refl

record_calls_lem :
    (cs : List Call)
    → IsOneResponse cs
    → record_calls cs (record { status = 200 }) ≡ (cs, record { status = sent_status cs })
unfolding record_calls record_call sent_status
record_calls_lem [] q = refl
record_calls_lem (call_write_header status h ∷ cs) q =
    rw (record_calls-IsBody cs (record { status = status }) q) refl
record_calls_lem (call_write p ∷ cs) q =
    rw (record_calls-IsBody cs (record { status = 200 }) q) refl

pub json_passes : (status : ℕ) → ltb status 400 || true ≡ true
json_passes status = elim (Bool-cases (ltb status 400)) [
  | inl low ↦ rw low refl
  | inr high ↦ rw high refl
]

module _ (marshal : ErrorBody → Result String) (request_id : String) where
  protect-IsOneResponse :
      (cs : List Call) → IsOneResponse cs → IsOneResponse (protect marshal request_id cs)
  unfolding protect
  protect-IsOneResponse [] q = tt
  protect-IsOneResponse (call_write p ∷ cs) q = q
  protect-IsOneResponse (call_write_header status h ∷ cs) q = elim (Bool-cases (passes status h)) [
    | inl pass ↦ rw pass q
    | inr stop ↦ rw stop (tt, tt)
  ]

  protect-IsJsonOnError :
      (cs : List Call) → IsOneResponse cs → All IsJsonOnError (protect marshal request_id cs)
  unfolding protect
  protect-IsJsonOnError [] q = tt
  protect-IsJsonOnError (call_write p ∷ cs) q = (tt, IsBody-IsJsonOnError cs q)
  protect-IsJsonOnError (call_write_header status h ∷ cs) q = elim (Bool-cases (passes status h)) [
    | inl pass ↦ rw pass (pass, IsBody-IsJsonOnError cs q)
    | inr stop ↦ rw stop (json_passes status, (tt, tt))
  ]

-- The guard and the recoverer are all that comes between a handler and the writer of the server, and
-- the access log has the status that is sent.
pub new_router_lem :
    (marshal : ErrorBody → Result String) (encode : ErrorBody → String) (request_id : String)
    (r : RequestLine) (h : Header) (handler : String → List Action × Bool)
    → let (actions, panics) = handler request_id in
      let sent =
        protect marshal request_id
          (plain (request_id_header request_id h) (recoverer encode request_id actions panics)) in
      new_router marshal encode request_id r h handler ≡ (
        sent,
        record {
          request_id = request_id;
          method = r.method;
          path = r.path;
          status = sent_status sent;
        },
      )
unfolding new_router access_log
new_router_lem marshal encode request_id r h handler =
    let actions = recoverer encode request_id (handler request_id).0 (handler request_id).1 in
    let h' = request_id_header request_id h in
    rw
      (
        ensure_json_error-plain marshal request_id h' actions,
        record_calls_lem (protect marshal request_id (plain h' actions)) (
            protect-IsOneResponse marshal request_id (plain h' actions)
              (plain-IsOneResponse h' actions)),
      )
      refl

-- Whatever a handler does that writes no status 1xx, or 101 alone of them, and whether or not it panics,
-- behind the middleware the response is what net/http sends for the handler and the recoverer, except that
-- an error that is not marked as JSON is replaced by its status and the one fixed body: so it has one
-- status, an error is marked as JSON, and the access log has that status and the id of the request.
pub new_router-IsJsonOnError :
    (marshal : ErrorBody → Result String) (encode : ErrorBody → String) (request_id : String)
    (r : RequestLine) (h : Header) (handler : String → List Action × Bool)
    → let (actions, panics) = handler request_id in
      let (calls, entry) = new_router marshal encode request_id r h handler in
      All IsFinal actions
      → (calls
          ≡ protect marshal request_id (
              served (request_id_header request_id h) (recoverer encode request_id actions panics)))
        × All IsJsonOnError calls
        × IsOneResponse calls
        × (entry.status ≡ sent_status calls)
        × (entry.request_id ≡ request_id)
new_router-IsJsonOnError marshal encode request_id r h handler final =
    let actions = recoverer encode request_id (handler request_id).0 (handler request_id).1 in
    let sent = plain (request_id_header request_id h) actions in
    let one = plain-IsOneResponse (request_id_header request_id h) actions in
    let plainly =
      served-plain (request_id_header request_id h) actions
        (recoverer-IsFinal encode request_id _ (handler request_id).1 final) in
    rw (new_router_lem marshal encode request_id r h handler) (
      ap (protect marshal request_id) (sym plainly),
      protect-IsJsonOnError marshal request_id sent one,
      protect-IsOneResponse marshal request_id sent one,
      refl,
      refl,
    )
