-- ===== src/App/Readiness.antt =====
-- `GET /healthz` of the whole service: from the pings of the two databases to the response.
use chuchu.Prelude.{
  ◌≡◌, refl, ap, ◌∙◌, Bool, true, false, Bool-cases, inl, inr, all, ◌&&◌, String, [], ◌∷◌, some,
  if◌then◌else◌, arith,
}
use chuchu.Effect.{Result, ok}
use chuchu.Outside.{Outside}
use chuchu.Httpx.Guard.{Header}
use chuchu.Httpx.Recoverer.{recoverer}
use chuchu.Health.{
  send, postgres_checker, redis_checker, Report, CheckResult, GetHealthzResponseObject,
  get_healthz_200, get_healthz_503, no_error, mark, collect, check, get_healthz,
}
use chuchu.Health.Arrivals.{healthz_status, healthz_report, get_healthz_lem}
use chuchu.Api.{Json, json_health, ErrorHandlers, visit_get_healthz}
use chuchu.Api.Strict.{or_report, strict_get_healthz}
use chuchu.Api.Wrapper
use chuchu.Api.Wrapper.{handler_with_options}
use chuchu.Apihttp.Mount.{mount, error_handlers}
use chuchu.Server.{RequestLine}
use chuchu.App.Responses.{answer, json_response}
use chuchu.App.Success.{sent-answer}
use chuchu.App.{Moment, checked, api_server, api_route, Deps, Writers, new_handler}

-- The two pings have succeeded.
abbrev pub is_ready : {o : Outside} → Moment o → Bool
is_ready m = no_error m.ping_postgres && no_error m.ping_redis

visit-answer :
    {o : Outside} (encode : Json o → Result String) (options : ErrorHandlers)
    (g : GetHealthzResponseObject) (text : String)
    → encode (json_health (healthz_report g)) ≡ ok text
    → or_report options (visit_get_healthz encode g) ≡ answer (healthz_status g) text
unfolding visit_get_healthz
visit-answer encode options (get_healthz_200 r) text e = rw e refl
visit-answer encode options (get_healthz_503 r) text e = rw e refl

both_ok :
    (first : Bool) (a b : CheckResult)
    → all (λ r. r.is_ok) (if first then a ∷ b ∷ [] else b ∷ a ∷ []) ≡ (a.is_ok && b.is_ok)
both_ok true a b = ground arith
both_ok false a b = ground arith

module _ {o : Outside} (m : Moment o) where
  ready_status : healthz_status (get_healthz (checked m)) ≡ (if is_ready m then 200 else 503)
  unfolding send
  ready_status =
      (get_healthz_lem (checked m)).0
      ∙ ap (λ b. if b then 200 else 503)
          (both_ok m.postgres_first (send (postgres_checker m.ping_postgres))
            (send (redis_checker m.ping_redis)))

  -- The report names both databases.
  pub record Names (r : Report) : Type 0 where
    pub postgres : r.checks "postgres" ≡ some (mark (no_error m.ping_postgres))
    pub redis : r.checks "redis" ≡ some (mark (no_error m.ping_redis))

  checked-Names : Names (check (checked m))
  unfolding check collect send
  checked-Names = elim (Bool-cases m.postgres_first) [
    | inl first ↦ rw first (record { postgres = refl; redis = refl })
    | inr second ↦ rw second (record { postgres = refl; redis = refl })
  ]

-- If the encoder works, the service answers `GET /healthz` by 200 when both databases have answered a
-- ping, and by 503 otherwise, with the encoded report, which names both; the order in which the pings
-- return does not matter, and no row is touched.
pub new_handler-healthz :
    (o : Outside) {S : Type 0} (d : Deps o S) (w : Writers o)
    → ((b : Json o) → (text : String) × (w.encode b ≡ ok text))
    → (request_id : String) (r : RequestLine) (h : Header) (m : Moment o) (s : S)
    → let ((calls, entry), t) =
        new_handler o d w request_id r h m (api_route Wrapper.get_healthz) s in
      (report : Report) × (text : String) × Names m report
      × (w.encode (json_health report) ≡ ok text)
      × (calls ≡ json_response (if is_ready m then 200 else 503) request_id h text)
      × (t ≡ s)
unfolding new_handler recoverer mount handler_with_options strict_get_healthz api_server
new_handler-healthz o d w encodes request_id r h m s =
    let g = get_healthz (checked m) in
    let report = healthz_report g in
    let (text, encoded) = encodes (json_health report) in
    let same : report ≡ check (checked m) = (get_healthz_lem (checked m)).1 in
    let options = error_handlers w.encode_error request_id in
    let acts : or_report options (visit_get_healthz w.encode g)
        ≡ answer (if is_ready m then 200 else 503) text =
      visit-answer w.encode options g text encoded ∙ ap (λ n. answer n text) (ready_status m) in
    (
      report,
      text,
      rw same (checked-Names m),
      encoded,
      sent-answer o d w request_id r h m Wrapper.get_healthz s (if is_ready m then 200 else 503)
          text acts,
      refl,
    )
