-- ===== src/Line/Webhook/Delivery.antt =====
-- What a delivery of LINE to the webhook does: which events are taken in, what is answered to a
-- request that cannot be read, and what a batch leaves that is sent again.
use chuchu.Prelude.{
  ℕ, ◌≡◌, refl, ◌≢◌, ◌∙◌, inl, inr, true, Bool-cases, String, List, [], ◌∷◌, ◌==◌, if◌then◌else◌,
  eq_iff, eq_refl, Option, some, none, some_injective, sym, ap,
}
use chuchu.Apperr.{GoError, invalid_signature, errors_is, as_error, http_status}
use chuchu.Httpx.{write_json, write_error}
use chuchu.Effect.{Result, ok, err}
use chuchu.Outside.{Outside}
use chuchu.Line.{Event, EventType, follow, unfollow, Repository}
use chuchu.Line.Readings.{Reading, join, summary}
use chuchu.Line.Handling.{IsRepository, handle_again}
use chuchu.Line.Webhook.{
  Source, user_source, user_source_pointer, other_source, Payload, WebhookEvent, follow_event,
  follow_event_pointer, unfollow_event, unfollow_event_pointer, other_event, append_event,
  user_id_from_source, to_domain_events, problem, done, answer_handled, handle,
}

-- The source is this user, as a value or by a pointer.
pub data Names : Source → String → Type 0 where
  by_value : (id : String) → Names (user_source id) id
  by_pointer : (id : String) → Names (user_source_pointer id) id

-- The event is a follow or an unfollow with this payload, as a value or by a pointer.
pub data Form : WebhookEvent → EventType → Payload → Type 0 where
  followed : (p : Payload) → Form (follow_event p) follow p
  followed_pointer : (p : Payload) → Form (follow_event_pointer p) follow p
  unfollowed : (p : Payload) → Form (unfollow_event p) unfollow p
  unfollowed_pointer : (p : Payload) → Form (unfollow_event_pointer p) unfollow p

-- What the webhook event says is that a named user has done this.
pub record Means (w : WebhookEvent) (e : Event) : Type 0 where
  pub payload : Payload
  pub form : Form w e.type payload
  pub names : Names payload.source e.user_id
  pub named : e.user_id ≢ ""
  pub at : e.occurred_at_millis ≡ payload.timestamp

-- The second list has what the first one means, in its order, and nothing else.
pub data Filtered : List WebhookEvent → List Event → Type 0 where
  stop : Filtered [] []
  take :
      {w : WebhookEvent} {e : Event} {ws : List WebhookEvent} {es : List Event}
      → Means w e
      → Filtered ws es
      → Filtered (w ∷ ws) (e ∷ es)
  skip :
      {w : WebhookEvent} {ws : List WebhookEvent} {es : List Event}
      → ((e : Event) → ¬ Means w e)
      → Filtered ws es
      → Filtered (w ∷ ws) es

payload_of : WebhookEvent → Option Payload
payload_of (follow_event p) = some p
payload_of (follow_event_pointer p) = some p
payload_of (unfollow_event p) = some p
payload_of (unfollow_event_pointer p) = some p
payload_of other_event = none

payload_of-Form :
    {w : WebhookEvent} {t : EventType} {p : Payload} → Form w t p → payload_of w ≡ some p
unfolding payload_of
payload_of-Form (followed p) = refl
payload_of-Form (followed_pointer p) = refl
payload_of-Form (unfollowed p) = refl
payload_of-Form (unfollowed_pointer p) = refl

user_id-Names : {s : Source} {id : String} → Names s id → user_id_from_source s ≡ id
unfolding user_id_from_source
user_id-Names (by_value id) = refl
user_id-Names (by_pointer id) = refl

Names-user_id : (s : Source) → user_id_from_source s ≢ "" → Names s (user_id_from_source s)
unfolding user_id_from_source
Names-user_id (user_source id) h = by_value id
Names-user_id (user_source_pointer id) h = by_pointer id
Names-user_id other_source h = absurd (h refl)

unnamed :
    {w : WebhookEvent} {t : EventType} (p : Payload)
    → Form w t p
    → (e : Event) → user_id_from_source p.source == "" ≡ true
    → ¬ Means w e
unnamed p form e empty m =
    let same : m.payload ≡ p =
      some_injective (sym (payload_of-Form m.form) ∙ payload_of-Form form) in
    m.named (
      sym (user_id-Names m.names)
      ∙ ap (λ (q : Payload). user_id_from_source q.source) same
      ∙ (eq_iff (user_id_from_source p.source) "").0 empty)

appended :
    {w : WebhookEvent} {t : EventType} (p : Payload) {ws : List WebhookEvent} {es : List Event}
    → Form w t p
    → Filtered ws es
    → Filtered (w ∷ ws) (append_event t p es)
appended {w} {t} p {ws} {es} form rest = elim (Bool-cases (user_id_from_source p.source == "")) [
  | inl empty ↦ rw empty (skip (λ e m. unnamed p form e empty m) rest)
  | inr full ↦
      let named : user_id_from_source p.source ≢ "" = λ e. cc (full, e, eq_refl "") in
      rw full (
        take
          (record {
            payload = p;
            form = form;
            names = Names-user_id p.source named;
            named = named;
            at = refl;
          })
          rest)
]

-- The events handed to the service are what the webhook events mean.
pub to_domain_events-Filtered : (ws : List WebhookEvent) → Filtered ws (to_domain_events ws)
unfolding to_domain_events payload_of
to_domain_events-Filtered [] = stop
to_domain_events-Filtered (follow_event p ∷ ws) =
    appended p (followed p) (to_domain_events-Filtered ws)
to_domain_events-Filtered (follow_event_pointer p ∷ ws) =
    appended p (followed_pointer p) (to_domain_events-Filtered ws)
to_domain_events-Filtered (unfollow_event p ∷ ws) =
    appended p (unfollowed p) (to_domain_events-Filtered ws)
to_domain_events-Filtered (unfollow_event_pointer p ∷ ws) =
    appended p (unfollowed_pointer p) (to_domain_events-Filtered ws)
to_domain_events-Filtered (other_event ∷ ws) =
    skip (λ e m. cc (payload_of-Form m.form)) (to_domain_events-Filtered ws)

no_problem :
    (o : Outside) {S : Type 0} (repo : Repository o S) (request_id : String) (r : Result (Unit {0}))
    → answer_handled o repo request_id r ≡ done
    → r ≡ ok tt
no_problem o repo request_id (ok _) h = refl
no_problem o repo request_id (err e) h = cc

module _ (o : Outside) {S : Type 0} (repo : Repository o S) where
  -- A request that cannot be read changes nothing. The answer is 401 for a bad signature, else 400,
  -- and says nothing else of the error: the SDK quotes the body of the request in it.
  pub refused :
      (request_id : String) (e : GoError) (clock : ℕ → o.Time) (s : S)
      → handle o repo request_id (err e) clock s ≡ (
        problem (
            write_json (if errors_is e invalid_signature then 401 else 400) (record {
              code =
                  if errors_is e invalid_signature
                  then "LINE_SIGNATURE_INVALID"
                  else "VALIDATION_FAILED";
              message =
                  if errors_is e invalid_signature then "LINE 簽章驗證失敗" else "無法解析 LINE webhook 請求";
              request_id = request_id;
              details = [];
            })),
        s,
      )
  unfolding handle write_error write_json as_error http_status
  refused request_id e clock s = elim (Bool-cases (errors_is e invalid_signature)) [
    | inl bad ↦ rw bad refl
    | inr other ↦ rw other refl
  ]

  module _ (view : S → String → Option Reading) (law : IsRepository o view repo) where
    -- A batch that is sent again, after whatever answer, and is then answered by 200 leaves every
    -- user with the reading that a single delivery of it leaves.
    pub redelivered :
        (request_id : String) (ws : List WebhookEvent) (clock clock' : ℕ → o.Time) (s : S)
        → let t = (handle o repo request_id (ok ws) clock s).1 in
          (handle o repo request_id (ok ws) clock' t).0 ≡ done
          → (j : String)
          → view
              (handle o repo request_id
                (ok ws)
                clock'
                (handle o repo request_id (ok ws) clock s).1).1
              j
            ≡ join (view s j) (summary j (to_domain_events ws))
    unfolding handle
    redelivered request_id ws clock clock' s h j =
        handle_again o view repo law clock clock' (to_domain_events ws) s
          (no_problem o repo request_id _ h) j
