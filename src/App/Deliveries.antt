-- ===== src/App/Deliveries.antt =====
-- A delivery of LINE through the whole service, sent once more.
use chuchu.Prelude.{◌≡◌, refl, ◌∙◌, sym, String, List, Option}
use chuchu.Effect.{Result, ok, err}
use chuchu.Outside.{Outside}
use chuchu.Httpx.{ErrorBody, write_error, write_json}
use chuchu.Httpx.Guard.{Header}
use chuchu.Line
use chuchu.Line.Readings.{join, summary}
use chuchu.Line.Pgrepo
use chuchu.Line.Pgrepo.Refines
use chuchu.Line.Webhook
use chuchu.Line.Webhook.{WebhookEvent, done, answer_handled, to_domain_events}
use chuchu.Line.Webhook.Delivery.{redelivered}
use chuchu.Api.Statuses.{action_status}
use chuchu.Server.{RequestLine}
use chuchu.Server.Chain.{sent_status}
use chuchu.App.{
  Moment, line_webhook_route, Deps, Writers, answer_actions, new_handler, route_handler,
}
use chuchu.App.Responses.{http_status-ne_200}
use chuchu.App.Sent.{handled-status}

-- Only the answer without an error has the status 200.
answer-eq_done :
    (o : Outside) {S : Type 0} (repo : Line.Repository o S) (encode_error : ErrorBody → String)
    (request_id : String) (r : Result (Unit {0}))
    → action_status (answer_actions encode_error (answer_handled o repo request_id r)) ≡ 200
    → answer_handled o repo request_id r ≡ done
unfolding action_status write_error write_json
answer-eq_done o repo encode_error request_id (ok _) h = refl
answer-eq_done o repo encode_error request_id (err e) h = absurd (http_status-ne_200 _ h)

-- When LINE sends the events of a callback once more, after whatever answer to the first request, and
-- this request is answered by 200, every user has the reading of a single delivery.
pub new_handler-redelivered :
    (o : Outside) {S : Type 0} (table : S → String → Option (Line.Pgrepo.LineUserModel o))
    (d : Deps o S) (w : Writers o) (law : Line.Pgrepo.Refines.IsDb o table d.line_db)
    (request_id request_id' : String) (r r' : RequestLine) (h h' : Header) (m m' : Moment o)
    (ws : List WebhookEvent) (s : S)
    → let route = line_webhook_route (ok ws) in
      let t = (new_handler o d w request_id r h m route s).1 in
      let ((calls, entry), u) = new_handler o d w request_id' r' h' m' route t in
      sent_status calls ≡ 200
      → (j : String)
      → Line.Pgrepo.Refines.readings o table u j
        ≡ join (Line.Pgrepo.Refines.readings o table s j) (summary j (to_domain_events ws))
unfolding new_handler Line.Webhook.handle
new_handler-redelivered o table d w law request_id request_id' r r' h h' m m' ws s sent j =
    let repo = Line.Pgrepo.repository o d.line_db in
    let t = (new_handler o d w request_id r h m (line_webhook_route (ok ws)) s).1 in
    let result = (Line.handle o repo m'.clock (to_domain_events ws) t).0 in
    let (status, logged) =
      handled-status w.marshal w.encode_error request_id' r' h'
        (λ id. (route_handler o d w m' (line_webhook_route (ok ws)) id t).0) refl in
    let answered = answer-eq_done o repo w.encode_error request_id' result (sym status ∙ sent) in
    redelivered o repo (Line.Pgrepo.Refines.readings o table)
      (Line.Pgrepo.Refines.upsert-IsRepository o table d.line_db law) request_id' ws m.clock
      m'.clock s answered j
