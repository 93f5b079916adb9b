-- ===== src/App/Updates.antt =====
-- What it means that the whole service answers `PATCH /properties/{id}` by 200: from the table
-- `properties` to the calls on the writer of the server.
use chuchu.Prelude.{◌≡◌, refl, String, Option, []}
use chuchu.Effect.{ok}
use chuchu.Outside.{Outside}
use chuchu.Httpx.Guard.{Header}
use chuchu.Property.{Property}
use chuchu.Property.Input.{validate_update}
use chuchu.Property.Pgrepo
use chuchu.Property.Pgrepo.{PropertyModel}
use chuchu.Property.Pgrepo.Refines.{IsDb, rows, repository-IsRepository}
use chuchu.Property.Httpapi.{UpdatePropertyRequest, to_update_input, to_api_property}
use chuchu.Property.Httpapi.Updates.{Updated, update_property-Updated}
use chuchu.Api.{json_property, update_property_200, visit_update_property}
use chuchu.Api.Wrapper
use chuchu.Server.{RequestLine}
use chuchu.Server.Chain.{sent_status}
use chuchu.App.{Moment, api_route, Deps, Writers, new_handler}
use chuchu.App.Refused.{updated, mount-updated}
use chuchu.App.Responses.{http_status-ne_200, json_response}
use chuchu.App.Success.{sent-Success}

-- When the service answers `PATCH /properties/{id}` by 200, the body was valid, and the response is, encoded,
-- the property that has its fields and the instant of the request and is for the rest, its status included,
-- what the row was. The row now holds what its columns keep of that property, its amounts to two places and
-- its instants rounded, and the other rows are as before: on a database that does what is documented of it.
pub new_handler-Updated :
    (o : Outside) {S : Type 0} (table : S → o.Uuid → Option (PropertyModel o)) (d : Deps o S)
    (w : Writers o) (law : IsDb o table d.db) (request_id : String) (r : RequestLine) (h : Header)
    (m : Moment o) (id : o.Uuid) (body : UpdatePropertyRequest) (s : S)
    → let op = api_route (Wrapper.update_property (ok id) (ok body)) in
      let ((calls, entry), t) = new_handler o d w request_id r h m op s in
      sent_status calls ≡ 200
      → (validate_update o (to_update_input body) ≡ [])
        × ((q : Property o) × Updated o
              (rows o table)
              (Pgrepo.repository o d.db)
              (repository-IsRepository o table d.db law)
              m.now
              id
              (to_update_input body)
              s
              q
              t
            × ((text : String) × (w.encode (json_property (to_api_property o q)) ≡ ok text)
                × (calls ≡ json_response 200 request_id h text)))
unfolding visit_update_property
new_handler-Updated o table d w law request_id r h m id body s sent =
    let repo = Pgrepo.repository o d.db in
    let op = Wrapper.update_property (ok id) (ok body) in
    let (found, t) = updated o d w request_id m id s body in
    let success =
      sent-Success o d w request_id r h m op s 200 http_status-ne_200
        (visit_update_property w.encode) update_property_200 json_property (λ a. refl) found t
        (mount-updated o d w request_id m id s body) sent in
    let (valid, (q, stored, same)) =
      update_property-Updated o (rows o table) repo (repository-IsRepository o table d.db law) m.now
        id body s success.made success.done in
    (valid, (q, rw success.state stored, (success.text, rw same success.encoded, success.calls)))
