-- ===== src/App.antt =====
-- internal/app/app.go: the whole handler of the service, from the databases to the response. The new
-- id, the clocks, the results of the two pings, and what chi and the libraries make of the request are
-- arguments.
pub mod Sent
pub mod Contract
pub mod Responses
pub mod Success
pub mod Problems
pub mod Duplicates
pub mod RoundTrip
pub mod Refused
pub mod Updates
pub mod Succeeds
pub mod Creates
pub mod Moves
pub mod Readiness
pub mod Calls
pub mod History
pub mod Deliveries
use chuchu.Prelude.{
  ℕ, Bool, true, false, String, List, [], ◌∷◌, Option, none, some, map, if◌then◌else◌,
}
use mathlib.Core.Option
use chuchu.Effect.{Result, ok, err, Exec, pure, ◌>>=◌}
use chuchu.Outside.{Outside}
use chuchu.Httpx.{ErrorBody}
use chuchu.Httpx.Guard.{Header, Action, writes_header, Call}
use chuchu.Health.{CheckResult, send, postgres_checker, redis_checker, get_healthz}
use chuchu.Property.Pgrepo
use chuchu.Property.Service.{Repository}
use chuchu.Property.Httpapi
use chuchu.Line
use chuchu.Line.Webhook.{WebhookEvent, Answer, problem, done}
use chuchu.Api.{
  Json, StrictServerInterface, ChangeStatusRequest, list_properties_200, create_property_201,
  get_property_200, update_property_200, change_property_status_200, Handler,
}
use chuchu.Api.Wrapper.{Operation}
use chuchu.Apihttp.Mount.{response_actions, mount}
use chuchu.Server.{RequestLine, AccessEntry, debug_panic, new_router}

-- What a request finds outside the program.
pub record Moment (o : Outside) : Type 0 where
  pub new_id : o.Uuid
  pub now : o.Time
  pub clock : ℕ → o.Time
  pub ping_postgres : Result (Unit {0})
  pub ping_redis : Result (Unit {0})
  pub postgres_first : Bool

-- What the two checkers of `NewHandler` send, in the order in which the results arrive
abbrev pub checked : {o : Outside} → Moment o → List CheckResult
checked m =
    let postgres = send (postgres_checker m.ping_postgres) in
    let redis = send (redis_checker m.ping_redis) in
    if m.postgres_first then postgres ∷ redis ∷ [] else redis ∷ postgres ∷ []

-- `apiServer`: the two features behind one interface
unfoldable pub api_server :
    (o : Outside) {S : Type 0} → Repository o S → Moment o → StrictServerInterface o S
api_server o repo m = record {
  list_properties =
      λ params. Httpapi.list_properties o repo params >>= λ r. pure (list_properties_200 r);
  create_property = λ body.
      Httpapi.create_property o repo m.new_id m.now body >>= λ p. pure (create_property_201 p);
  get_property = λ id. Httpapi.get_property o repo id >>= λ p. pure (get_property_200 p);
  update_property =
      λ id body. Httpapi.update_property o repo m.now id body >>= λ p. pure (update_property_200 p);
  change_property_status = λ id body.
      Httpapi.change_property_status o repo m.now id (Option.map (λ b. b.status) body) >>= λ p.
      pure (change_property_status_200 p);
  get_healthz = pure (get_healthz (checked m));
}

-- The route that chi finds. Without one, chi answers by itself.
pub data Route (o : Outside) : Type 0 where
  api_route : Operation o → Route o
  line_webhook_route : Result (List WebhookEvent) → Route o
  debug_panic_route : Route o
  no_route : Route o

pub record Deps (o : Outside) (S : Type 0) : Type 0 where
  pub db : Pgrepo.Db o S
  pub line_db : Line.Pgrepo.Db o S
  pub debug : Bool

-- The libraries that write bodies: the two encoders, `json.Marshal` of the guard, and chi's own answer.
pub record Writers (o : Outside) : Type 0 where
  pub encode : Json o → Result String
  pub encode_error : ErrorBody → String
  pub marshal : ErrorBody → Result String
  pub not_found : List Action

abbrev pub answer_actions : (ErrorBody → String) → Answer → List Action
answer_actions encode_error (problem r) = response_actions encode_error r
answer_actions encode_error done = writes_header 200 ∷ []

module _ (o : Outside) {S : Type 0} (d : Deps o S) (w : Writers o) where
  -- The handler of a route: what it does to the writer, whether it panics, and the databases after it
  abbrev pub route_handler : Moment o → Route o → String → S → (List Action × Bool) × S
  route_handler m (api_route op) request_id s =
      let si = api_server o (Pgrepo.repository o d.db) m in
      let (actions, t) = mount w.encode_error request_id w.encode si op s in ((actions, false), t)
  route_handler m (line_webhook_route parsed) request_id s =
      let (answer, t) =
        Line.Webhook.handle o (Line.Pgrepo.repository o d.line_db) request_id parsed m.clock s in
      ((answer_actions w.encode_error answer, false), t)
  route_handler m debug_panic_route request_id s =
      (if d.debug then debug_panic request_id else (w.not_found, false), s)
  route_handler m no_route request_id s = ((w.not_found, false), s)

  -- `NewHandler`: the calls on the writer of the server, the line of the access log, the databases
  unfoldable pub new_handler :
      String → RequestLine → Header → Moment o → Route o → S → (List Call × AccessEntry) × S
  new_handler request_id r h m route s = (
    new_router w.marshal w.encode_error request_id r h (λ id. (route_handler m route id s).0),
    (route_handler m route request_id s).1,
  )
