-- ===== src/Line/Webhook.antt =====
-- internal/line/webhookhttp/webhookhttp.go: the webhook of LINE. The types are those of the SDK's
-- package `webhook` as the code reads them: the value and the pointer form of the two events it
-- takes in and of a user as source, any other event, any other source.

pub mod Delivery
use chuchu.Prelude.{ℕ, ℤ, String, List, [], ◌∷◌, ◌==◌, if◌then◌else◌}
use chuchu.Apperr.{GoError, invalid_signature, to_go, with_error, with_message, errors_is}
use chuchu.Httpx.{ErrorBody, Response, write_error}
use chuchu.Apperr.Sentinel.{line_signature_invalid, validation_failed}
use chuchu.Effect.{Result, ok, err, Exec, lift, continue}
use chuchu.Outside.{Outside}
use chuchu.Line
use chuchu.Line.{Event, EventType, follow, unfollow, Repository}

pub data Source : Type 0 where
  user_source : String → Source
  user_source_pointer : String → Source
  other_source : Source

pub record Payload : Type 0 where
  pub source : Source
  pub timestamp : ℤ

pub data WebhookEvent : Type 0 where
  follow_event : Payload → WebhookEvent
  follow_event_pointer : Payload → WebhookEvent
  unfollow_event : Payload → WebhookEvent
  unfollow_event_pointer : Payload → WebhookEvent
  other_event : WebhookEvent

-- `if p, ok := source.(*webhook.UserSource); ok { source = *p }`
abbrev dereferenced_source : Source → Source
dereferenced_source (user_source_pointer id) = user_source id
dereferenced_source s = s

abbrev user_id_of : Source → String
user_id_of (user_source id) = id
user_id_of s = ""

unfoldable pub user_id_from_source : Source → String
user_id_from_source s = user_id_of (dereferenced_source s)

-- The first `switch` of `toDomainEvents`
abbrev dereferenced : WebhookEvent → WebhookEvent
dereferenced (follow_event_pointer p) = follow_event p
dereferenced (unfollow_event_pointer p) = unfollow_event p
dereferenced e = e

abbrev pub append_event : EventType → Payload → List Event → List Event
append_event type p rest =
    let user_id = user_id_from_source p.source in
    if user_id == ""
    then rest
    else record { user_id = user_id; type = type; occurred_at_millis = p.timestamp } ∷ rest

-- The second `switch`, with the events that the rest of the loop appends
abbrev append_domain : WebhookEvent → List Event → List Event
append_domain (follow_event p) rest = append_event follow p rest
append_domain (unfollow_event p) rest = append_event unfollow p rest
append_domain e rest = rest

unfoldable pub to_domain_events : List WebhookEvent → List Event
to_domain_events [] = []
to_domain_events (e ∷ es) = append_domain (dereferenced e) (to_domain_events es)

-- What the handler answers: an error, or the status 200 with no body.
pub data Answer : Type 0 where
  problem : Response ErrorBody → Answer
  done : Answer

-- The error that the handler writes when `webhook.ParseRequest` fails
abbrev pub parse_problem : GoError → GoError
parse_problem e =
    if errors_is e invalid_signature
    then to_go (with_error e line_signature_invalid)
    else to_go (with_error e (with_message "無法解析 LINE webhook 請求" validation_failed))

module _ (o : Outside) {S : Type 0} (repo : Repository o S) where
  abbrev pub answer_handled : String → Result (Unit {0}) → Answer
  answer_handled request_id (err e) = problem (write_error request_id e)
  answer_handled request_id (ok _) = done

  -- `Handler.handle`, from what `webhook.ParseRequest` returned: the events of the callback
  unfoldable pub handle : String → Result (List WebhookEvent) → (ℕ → o.Time) → S → Answer × S
  handle request_id (err e) clock s = (problem (write_error request_id (parse_problem e)), s)
  handle request_id (ok events) clock s =
      let (r, t) = Line.handle o repo clock (to_domain_events events) s in
      (answer_handled request_id r, t)
