-- ===== src/App/Creates.antt =====
-- What it means that the whole service answers `POST /properties` by 201: from the body to the table
-- `properties` and the calls on the writer of the server.
use chuchu.Prelude.{◌≡◌, ◌≢◌, refl, String, Option, some, arith}
use chuchu.Apperr.{Code, http_status}
use chuchu.Effect.{Result, ok, continue, pure}
use chuchu.Outside.{Outside, DecimalLaws}
use chuchu.Httpx.Guard.{Header}
use chuchu.Property.{Property}
use chuchu.Property.Pgrepo
use chuchu.Property.Pgrepo.{PropertyModel}
use chuchu.Property.Pgrepo.Refines.{IsDb, rows, repository-IsRepository}
use chuchu.Property.Httpapi
use chuchu.Property.Httpapi.{CreatePropertyRequest, ApiProperty, to_api_property}
use chuchu.Property.Httpapi.Creates.{Created, create_property-Created}
use chuchu.Api.{json_property, create_property_201, visit_create_property}
use chuchu.Api.Strict.{respond, strict_create_property}
use chuchu.Api.Wrapper
use chuchu.Api.Wrapper.{handler_with_options}
use chuchu.Apihttp.Mount.{mount, error_handlers}
use chuchu.Server.{RequestLine}
use chuchu.Server.Chain.{sent_status}
use chuchu.App.{Moment, api_server, api_route, Deps, Writers, new_handler}
use chuchu.App.Responses.{json_response, continue-state}
use chuchu.App.Success.{sent-Success}

http_status-ne_201 : (code : Code) → http_status code ≢ 201
unfolding http_status
http_status-ne_201 code h = ground arith

module _ (o : Outside) {S : Type 0} (d : Deps o S) (w : Writers o) (request_id : String)
    (m : Moment o) (body : CreatePropertyRequest) (s : S) where
  abbrev pub created : Result (ApiProperty o) × S
  created = Httpapi.create_property o (Pgrepo.repository o d.db) m.new_id m.now (some body) s

  pub mount-created :
      mount w.encode_error request_id w.encode
        (api_server o (Pgrepo.repository o d.db) m)
        (Wrapper.create_property (ok body))
        s
      ≡ (
        respond
            (error_handlers w.encode_error request_id)
            (visit_create_property w.encode)
            (continue created.0 (λ p. pure (create_property_201 p)) created.1).0,
        created.1,
      )
  unfolding mount handler_with_options strict_create_property api_server
  mount-created = rw (continue-state created.0 create_property_201 created.1) refl

-- When the service answers `POST /properties` by 201, the body of the response is a sound and vacant
-- property, encoded, the row under the new id holds what its columns keep of that property, its amounts
-- to two places and its instants rounded, and the other rows are as before: on a database and with
-- decimals that do what is documented of them.
pub new_handler-Created :
    (o : Outside) {S : Type 0} (table : S → o.Uuid → Option (PropertyModel o)) (d : Deps o S)
    (w : Writers o) (decimals : DecimalLaws o) (law : IsDb o table d.db) (request_id : String)
    (r : RequestLine) (h : Header) (m : Moment o) (body : CreatePropertyRequest) (s : S)
    → let op = api_route (Wrapper.create_property (ok body)) in
      let ((calls, entry), t) = new_handler o d w request_id r h m op s in
      sent_status calls ≡ 201
      → (p : Property o) × Created o
          (rows o table)
          decimals
          (Pgrepo.repository o d.db)
          (repository-IsRepository o table d.db law)
          m.new_id
          m.now
          s
          p
          t
        × ((text : String) × (w.encode (json_property (to_api_property o p)) ≡ ok text)
            × (calls ≡ json_response 201 request_id h text))
unfolding visit_create_property
new_handler-Created o table d w decimals law request_id r h m body s sent =
    let repo = Pgrepo.repository o d.db in
    let op = Wrapper.create_property (ok body) in
    let (found, t) = created o d w request_id m body s in
    let success =
      sent-Success o d w request_id r h m op s 201 http_status-ne_201
        (visit_create_property w.encode) create_property_201 json_property (λ a. refl) found t
        (mount-created o d w request_id m body s) sent in
    let (p, stored, same) =
      create_property-Created o (rows o table) decimals repo
        (repository-IsRepository o table d.db law) m.new_id m.now s body success.made
        success.done in
    (p, rw success.state stored, (success.text, rw same success.encoded, success.calls))
