-- ===== src/Tests/Users.antt =====
-- The LINE users on a small database: a list of rows, in the world of Tests/World.
use chuchu.Prelude.{
  ℕ, ℤ, pos, ◌≡◌, refl, ◌≢◌, inl, inr, true, false, String, List, [], ◌∷◌, Option, eq_iff, eq_refl,
  lookup, arith,
}
use chuchu.Effect.{ok, err}
use chuchu.Apperr.{GoError, foreign}
use chuchu.Line
use chuchu.Line.{Event, follow, unfollow, handle}
use chuchu.Line.Readings.{join, summary, swap, Compatible}
use chuchu.Line.Handling.{IsRepository, handle-Reordered}
use chuchu.Line.Pgrepo.{upsert_statement, LineUserModel, Statement, Db, repository}
use chuchu.Line.Pgrepo.Refines.{
  left_by, Ran, IsDb, readings, upsert-IsRepository, KeepsRows, line_users-IsRepository,
}
use chuchu.Line.Webhook
use chuchu.Line.Webhook.{
  Source, WebhookEvent, follow_event, unfollow_event_pointer, other_event, Payload, user_source,
  user_source_pointer, other_source, to_domain_events, problem, done,
}
use chuchu.Line.Webhook.Delivery.{Filtered, to_domain_events-Filtered}
use chuchu.Property.Pgrepo
use chuchu.Api.Statuses.{action_status}
use chuchu.Server.{RequestLine}
use chuchu.App.{Moment, Route, line_webhook_route, Deps, Writers, new_handler, route_handler}
use chuchu.App.Sent.{handled-status}
use chuchu.App.Deliveries.{new_handler-redelivered}
use chuchu.Tests.World.{world}

abbrev Users : Type 0
Users = List (String × LineUserModel world)

abbrev find_user : Users → String → Option (LineUserModel world)
find_user s j = lookup j s

-- A new entry goes in front, where it hides the old one.
abbrev database : Db world Users
database = record {
  insert_on_conflict =
      λ st s. let id = st.proposed.user_id in (ok tt, (id, left_by world st (find_user s id)) ∷ s);
}

lookup-cons_ne :
    {A : Type 0} (i j : String) (a : A) (s : List (String × A))
    → j ≢ i
    → lookup j ((i, a) ∷ s) ≡ lookup j s
lookup-cons_ne i j a s ne = ground (arith, eq_iff i j)

database-Ran :
    (st : Statement world) (s : Users)
    → Ran world find_user st s (database.insert_on_conflict st s).1
database-Ran st s = record {
  row = rw (eq_refl st.proposed.user_id);
  others = λ j ne. lookup-cons_ne st.proposed.user_id j _ s ne;
}

database-IsDb : IsDb world find_user database
database-IsDb = record {
  takes = λ m s. Unit;
  taken = λ st s up. refl;
  run_ok = λ st s h. database-Ran st s;
  run_writes = λ st s. inr (database-Ran st s);
}

line_users-IsRepository_example :
    IsRepository world (readings world find_user) (repository world database)
    × KeepsRows world find_user
        (λ u. database-IsDb.takes (upsert_statement world u))
        (repository world database)
line_users-IsRepository_example = line_users-IsRepository world find_user database database-IsDb

abbrev event_at : String → String → ℤ → Event
event_at u type at = record { user_id = u; type = type; occurred_at_millis = at }

abbrev batch : List Event
batch = event_at "U1" "FOLLOW" (pos 5) ∷ event_at "U1" "UNFOLLOW" (pos 3) ∷ []

abbrev other_batch : List Event
other_batch = event_at "U1" "UNFOLLOW" (pos 3) ∷ event_at "U1" "FOLLOW" (pos 5) ∷ []

abbrev clock : ℕ → ℕ
clock n = n

abbrev line_repo : Line.Repository world Users
line_repo = repository world database

line_law : IsRepository world (readings world find_user) line_repo
line_law = upsert-IsRepository world find_user database database-IsDb

batches-Compatible : Compatible (event_at "U1" "FOLLOW" (pos 5)) (event_at "U1" "UNFOLLOW" (pos 3))
batches-Compatible = inr (inl (λ h. cc h))

handle-Reordered_example :
    readings world find_user (Line.handle world line_repo clock batch []).1 "U1"
    ≡ readings world find_user (Line.handle world line_repo clock other_batch []).1 "U1"
unfolding Line.handle Line.Pgrepo.upsert
handle-Reordered_example =
    handle-Reordered world (readings world find_user) line_repo line_law clock clock []
      (swap (event_at "U1" "FOLLOW" (pos 5)) (event_at "U1" "UNFOLLOW" (pos 3)) []
        batches-Compatible)
      refl refl "U1"

abbrev payload : Source → Payload
payload s = record { source = s; timestamp = pos 5 }

abbrev request : List WebhookEvent
request =
    follow_event (payload (user_source "U1"))
    ∷ other_event
    ∷ unfollow_event_pointer (payload other_source)
    ∷ unfollow_event_pointer (payload (user_source_pointer "U2"))
    ∷ []

to_domain_events-Filtered_example : Filtered request (to_domain_events request)
to_domain_events-Filtered_example = to_domain_events-Filtered request

abbrev bad_body : GoError
bad_body = foreign "failed to unmarshal request body: {\"secret\": 1"

-- A service with no properties.
abbrev no_properties : Pgrepo.Db world Users
no_properties = record {
  insert = λ m s. (err bad_body, s);
  select_by_id = λ id s. (err bad_body, s);
  update_by_pk = λ m s. (err bad_body, s);
  select_page = λ q s. (err bad_body, s);
}

abbrev deps : Deps world Users
deps = record { db = no_properties; line_db = database; debug = false }

abbrev writers : Writers world
writers = record {
  encode = λ b. ok "{}";
  encode_error = λ b. "{}";
  marshal = λ b. ok "{}";
  not_found = [];
}

abbrev callback : RequestLine
callback = record { method = "POST"; path = "/webhooks/line" }

abbrev moment : Moment world
moment = record {
  new_id = 0;
  now = 0;
  clock = clock;
  ping_postgres = ok tt;
  ping_redis = ok tt;
  postgres_first = true;
}

new_handler-redelivered_example :
    let route : Route world = line_webhook_route (ok request) in
    let t = (new_handler world deps writers "r1" callback (λ k. "") moment route []).1 in
    let u = (new_handler world deps writers "r2" callback (λ k. "") moment route t).1 in
    readings world find_user u "U2"
    ≡ join (readings world find_user [] "U2") (summary "U2" (to_domain_events request))
unfolding action_status Line.Webhook.handle Line.handle Line.Pgrepo.upsert to_domain_events
    Webhook.user_id_from_source new_handler
new_handler-redelivered_example =
    let t = (Line.Webhook.handle world line_repo "r1" (ok request) clock []).1 in
    new_handler-redelivered world find_user deps writers database-IsDb "r1" "r2" callback callback
      (λ k. "") (λ k. "") moment moment request []
      (handled-status writers.marshal writers.encode_error "r2" callback (λ k. "")
        (λ id. (route_handler world deps writers moment (line_webhook_route (ok request)) id t).0)
        refl).0
      "U2"
