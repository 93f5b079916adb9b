-- ===== src/App/Moves.antt =====
-- What it means that the whole service answers `POST /properties/{id}/status` by 200: from the table
-- `properties` to the calls on the writer of the server.
use chuchu.Prelude.{◌≡◌, refl, true, String, Option, some}
use chuchu.Effect.{Result, ok, continue, pure}
use chuchu.Outside.{Outside}
use chuchu.Httpx.Guard.{Header}
use chuchu.Property.{status_valid}
use chuchu.Property.Pgrepo
use chuchu.Property.Pgrepo.{PropertyModel}
use chuchu.Property.Pgrepo.Refines.{IsDb, rows, repository-IsRepository}
use chuchu.Property.Httpapi
use chuchu.Property.Httpapi.{ApiProperty, to_api_property}
use chuchu.Property.Httpapi.Changes.{Moved, change_property_status-Moved}
use chuchu.Api.{
  json_property, ChangeStatusRequest, change_property_status_200, visit_change_property_status,
}
use chuchu.Api.Strict.{respond, strict_change_property_status}
use chuchu.Api.Wrapper
use chuchu.Api.Wrapper.{handler_with_options, wrap_change_property_status}
use chuchu.Apihttp.Mount.{mount, error_handlers}
use chuchu.Server.{RequestLine}
use chuchu.Server.Chain.{sent_status}
use chuchu.App.{Moment, api_server, api_route, Deps, Writers, new_handler}
use chuchu.App.Responses.{http_status-ne_200, json_response, continue-state}
use chuchu.App.Success.{sent-Success}

module _ (o : Outside) {S : Type 0} (d : Deps o S) (w : Writers o) (request_id : String)
    (m : Moment o) (id : o.Uuid) (body : ChangeStatusRequest) (s : S) where
  abbrev pub changed : Result (ApiProperty o) × S
  changed =
      Httpapi.change_property_status o (Pgrepo.repository o d.db) m.now id (some body.status) s

  pub mount-changed :
      mount w.encode_error request_id w.encode
        (api_server o (Pgrepo.repository o d.db) m)
        (Wrapper.change_property_status (ok id) (ok body))
        s
      ≡ (
        respond
            (error_handlers w.encode_error request_id)
            (visit_change_property_status w.encode)
            (continue changed.0 (λ p. pure (change_property_status_200 p)) changed.1).0,
        changed.1,
      )
  unfolding mount handler_with_options wrap_change_property_status strict_change_property_status
      api_server
  mount-changed = rw (continue-state changed.0 change_property_status_200 changed.1) refl

-- When the service answers `POST /properties/{id}/status` by 200, the body named a valid status, the
-- state machine has the edge from the status of the row to it, the body of the response is, encoded, the
-- property of the row with that status and the instant of the request, and the row now holds what its
-- columns keep of that property: on a database that does what is documented of it.
pub new_handler-Moved :
    (o : Outside) {S : Type 0} (table : S → o.Uuid → Option (PropertyModel o)) (d : Deps o S)
    (w : Writers o) (law : IsDb o table d.db) (request_id : String) (r : RequestLine) (h : Header)
    (m : Moment o) (id : o.Uuid) (body : ChangeStatusRequest) (s : S)
    → let op = api_route (Wrapper.change_property_status (ok id) (ok body)) in
      let ((calls, entry), t) = new_handler o d w request_id r h m op s in
      sent_status calls ≡ 200
      → (status_valid body.status ≡ true)
        × ((q : _) × Moved o
              (rows o table)
              (Pgrepo.repository o d.db)
              (repository-IsRepository o table d.db law)
              m.now
              id
              body.status
              s
              q
              t
            × ((text : String) × (w.encode (json_property (to_api_property o q)) ≡ ok text)
                × (calls ≡ json_response 200 request_id h text)))
unfolding visit_change_property_status
new_handler-Moved o table d w law request_id r h m id body s sent =
    let repo = Pgrepo.repository o d.db in
    let op = Wrapper.change_property_status (ok id) (ok body) in
    let (found, t) = changed o d w request_id m id body s in
    let success =
      sent-Success o d w request_id r h m op s 200 http_status-ne_200
        (visit_change_property_status w.encode) change_property_status_200 json_property (λ a. refl)
        found t (mount-changed o d w request_id m id body s) sent in
    let (valid, (q, moves, same)) =
      change_property_status-Moved o (rows o table) repo (repository-IsRepository o table d.db law)
        m.now id body.status s success.made success.done in
    (valid, (q, rw success.state moves, (success.text, rw same success.encoded, success.calls)))
