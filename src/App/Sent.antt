-- ===== src/App/Sent.antt =====
-- The status that internal/app sends and logs for an operation of the API, against that of the generated
-- server.
use chuchu.Prelude.{Bool, false, ◌≡◌, refl, ◌∙◌, inl, inr, Bool-cases, String, List, [], ◌∷◌}
use chuchu.Effect.{Result}
use chuchu.Outside.{Outside}
use chuchu.Httpx.{ErrorBody}
use chuchu.Httpx.Guard.{
  Header, Action, sets, deletes, writes_header, writes, Call, call_write_header, call_write, passes,
  set_header, del_header,
}
use chuchu.Httpx.Guard.Transparent.{plain, protect}
use chuchu.Httpx.Recoverer.{recoverer}
use chuchu.Property.Pgrepo
use chuchu.Api.Wrapper.{Operation}
use chuchu.Apihttp.Mount.{mount}
use chuchu.Api.Statuses.{action_status}
use chuchu.Server.{new_router, RequestLine, request_id_header}
use chuchu.Server.Chain.{sent_status, new_router_lem}
use chuchu.App.{Moment, api_server, api_route, Deps, Writers, new_handler, route_handler}

plain-action_status :
    (h : Header) (as' : List Action) → sent_status (plain h as') ≡ action_status as'
unfolding sent_status plain action_status
plain-action_status h [] = refl
plain-action_status h (sets key value ∷ as') = plain-action_status (set_header key value h) as'
plain-action_status h (deletes key ∷ as') = plain-action_status (del_header key h) as'
plain-action_status h (writes_header status ∷ as') = refl
plain-action_status h (writes p ∷ as') = refl

protect-sent_status :
    (marshal : ErrorBody → Result String) (request_id : String) (cs : List Call)
    → sent_status (protect marshal request_id cs) ≡ sent_status cs
unfolding sent_status protect
protect-sent_status marshal request_id [] = refl
protect-sent_status marshal request_id (call_write p ∷ cs) = refl
protect-sent_status marshal request_id (call_write_header status h ∷ cs) =
    elim (Bool-cases (passes status h)) [ inl pass ↦ rw pass refl | inr stop ↦ rw stop refl ]

-- A handler that does not panic is answered, and logged, by the status that it sends.
pub handled-status :
    (marshal : ErrorBody → Result String) (encode : ErrorBody → String) (request_id : String)
    (r : RequestLine) (h : Header) (handler : String → List Action × Bool)
    → (handler request_id).1 ≡ false
    → let (calls, entry) = new_router marshal encode request_id r h handler in
      (sent_status calls ≡ action_status (handler request_id).0)
      × (entry.status ≡ action_status (handler request_id).0)
unfolding recoverer
handled-status marshal encode request_id r h handler calm =
    let actions = (handler request_id).0 in
    let h' = request_id_header request_id h in
    let same : sent_status (protect marshal request_id (plain h' actions)) ≡ action_status actions =
      protect-sent_status marshal request_id (plain h' actions) ∙ plain-action_status h' actions in
    rw (new_router_lem marshal encode request_id r h handler, calm) (same, same)

-- The service sends the status of what the generated server does, and logs it.
pub new_handler-status :
    (o : Outside) {S : Type 0} (d : Deps o S) (w : Writers o) (request_id : String)
    (r : RequestLine) (h : Header) (m : Moment o) (op : Operation o) (s : S)
    → let ((calls, entry), t) = new_handler o d w request_id r h m (api_route op) s in
      let (actions, u) =
        mount w.encode_error request_id w.encode (api_server o (Pgrepo.repository o d.db) m) op s in
      (sent_status calls ≡ action_status actions) × (entry.status ≡ action_status actions) × (t ≡ u)
unfolding new_handler
new_handler-status o d w request_id r h m op s =
    let (sent, logged) =
      handled-status w.marshal w.encode_error request_id r h
        (λ id. (route_handler o d w m (api_route op) id s).0) refl in
    (sent, logged, refl)
