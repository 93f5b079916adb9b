-- ===== src/App/Contract.antt =====
-- The statuses that internal/app answers the operations of the API by, against those of the response
-- objects that api/api.gen.go has for each of them.
use chuchu.Prelude.{◌≡◌, refl, true, String, [], ◌∷◌, none, some}
use chuchu.Apperr.{GoError, as_error}
use chuchu.Effect.{Result, err}
use chuchu.Outside.{Outside}
use chuchu.Httpx.{ErrorBody}
use chuchu.Httpx.Guard.{Header}
use chuchu.Httpx.Failures.{has, Fails-mono}
use chuchu.Health.{get_healthz, GetHealthzResponseObject, get_healthz_200, get_healthz_503}
use chuchu.Property.Pgrepo
use chuchu.Property.Pgrepo.Statuses.{IsForeign, repository-IsAnswerable}
use chuchu.Property.Service.{Repository}
use chuchu.Property.Service.Failures.{IsAnswerable}
use chuchu.Property.Httpapi
use chuchu.Property.Httpapi.{ListPropertiesParams}
use chuchu.Property.Httpapi.Failures.{
  list_properties-Fails, create_property-Fails, get_property-Fails, update_property-Fails,
  change_property_status-Fails,
}
use chuchu.Api.{
  ChangeStatusRequest, Json, json_property, json_list, json_health, list_properties_200,
  create_property_201, get_property_200, update_property_200, change_property_status_200,
  visit_list_properties, visit_create_property, visit_get_property, visit_update_property,
  visit_change_property_status, visit_get_healthz,
}
use chuchu.Api.Strict.{
  or_report, strict_list_properties, strict_create_property, strict_get_property,
  strict_update_property, strict_change_property_status, strict_get_healthz,
}
use chuchu.Api.Wrapper
use chuchu.Api.Wrapper.{
  Operation, handler_with_options, wrap_list_properties, wrap_get_property, wrap_update_property,
  wrap_change_property_status,
}
use chuchu.Apihttp.Mount.{mount, error_handlers}
use chuchu.Api.Statuses.{
  action_status, documented, Answers, bind_query-Answers, bind_id-Answers, with_body-Answers,
  respond-Fails, visit_json-Answers,
}
use chuchu.Server.{RequestLine}
use chuchu.Server.Chain.{sent_status}
use chuchu.App.Sent.{new_handler-status}
use chuchu.App.{checked, Moment, api_server, api_route, Deps, Writers, new_handler}

module _ (o : Outside) {S : Type 0} (repo : Repository o S) (a : IsAnswerable o repo) (m : Moment o)
    (encode : Json o → Result String) (encode_error : ErrorBody → String) (request_id : String)
    (foreign : (b : Json o) (e : GoError) → encode b ≡ err e → as_error e ≡ none) where
  healthz-Answers :
      (g : GetHealthzResponseObject)
      → has (200 ∷ 503 ∷ 500 ∷ []) (
          action_status
            (or_report (error_handlers encode_error request_id) (visit_get_healthz encode g)))
        ≡ true
  unfolding visit_get_healthz
  healthz-Answers (get_healthz_200 r) =
      visit_json-Answers encode_error request_id encode foreign (200 ∷ 503 ∷ 500 ∷ []) 200
        (json_health r) refl refl
  healthz-Answers (get_healthz_503 r) =
      visit_json-Answers encode_error request_id encode foreign (200 ∷ 503 ∷ 500 ∷ []) 503
        (json_health r) refl refl

  list-Answers :
      (params : ListPropertiesParams)
      → Answers (200 ∷ 400 ∷ 500 ∷ []) (
          strict_list_properties encode
            (api_server o repo m)
            (error_handlers encode_error request_id)
            params)
  unfolding strict_list_properties api_server visit_list_properties
  list-Answers params s =
      let codes = 200 ∷ 400 ∷ 500 ∷ [] in
      respond-Fails encode_error request_id codes (visit_list_properties encode) list_properties_200
        (Httpapi.list_properties o repo params s).0 (Httpapi.list_properties o repo params s).1
        (Fails-mono (400 ∷ 500 ∷ []) codes _ refl (list_properties-Fails o repo a params s))
        λ b.
          visit_json-Answers encode_error request_id encode foreign codes 200 (json_list b) refl
            refl

  create-Answers :
      (decoded : Result Httpapi.CreatePropertyRequest)
      → Answers (201 ∷ 400 ∷ 409 ∷ 500 ∷ []) (
          strict_create_property encode
            (api_server o repo m)
            (error_handlers encode_error request_id)
            decoded)
  unfolding strict_create_property api_server visit_create_property
  create-Answers decoded =
      let codes = 201 ∷ 400 ∷ 409 ∷ 500 ∷ [] in
      with_body-Answers encode_error request_id codes refl decoded _ λ body s.
        let created = Httpapi.create_property o repo m.new_id m.now (some body) s in
        respond-Fails encode_error request_id codes (visit_create_property encode)
          create_property_201 created.0 created.1
          (Fails-mono (400 ∷ 409 ∷ 500 ∷ []) codes _ refl
            (create_property-Fails o repo a m.new_id m.now (some body) s))
          λ b.
            visit_json-Answers encode_error request_id encode foreign codes 201 (json_property b)
              refl refl

  get-Answers :
      (id : o.Uuid)
      → Answers (200 ∷ 400 ∷ 404 ∷ 500 ∷ []) (
          strict_get_property encode
            (api_server o repo m)
            (error_handlers encode_error request_id)
            id)
  unfolding strict_get_property api_server visit_get_property
  get-Answers id s =
      let codes = 200 ∷ 400 ∷ 404 ∷ 500 ∷ [] in
      let read = Httpapi.get_property o repo id s in
      respond-Fails encode_error request_id codes (visit_get_property encode) get_property_200
        read.0 read.1 (Fails-mono (404 ∷ 500 ∷ []) codes _ refl (get_property-Fails o repo a id s))
        λ b.
          visit_json-Answers encode_error request_id encode foreign codes 200 (json_property b) refl
            refl

  update-Answers :
      (decoded : Result Httpapi.UpdatePropertyRequest) (id : o.Uuid)
      → Answers (200 ∷ 400 ∷ 404 ∷ 500 ∷ []) (
          strict_update_property encode
            (api_server o repo m)
            (error_handlers encode_error request_id)
            decoded
            id)
  unfolding strict_update_property api_server visit_update_property
  update-Answers decoded id =
      let codes = 200 ∷ 400 ∷ 404 ∷ 500 ∷ [] in
      with_body-Answers encode_error request_id codes refl decoded _ λ body s.
        let updated = Httpapi.update_property o repo m.now id (some body) s in
        respond-Fails encode_error request_id codes (visit_update_property encode)
          update_property_200 updated.0 updated.1
          (Fails-mono (400 ∷ 404 ∷ 500 ∷ []) codes _ refl
            (update_property-Fails o repo a m.now id (some body) s))
          λ b.
            visit_json-Answers encode_error request_id encode foreign codes 200 (json_property b)
              refl refl

  change-Answers :
      (decoded : Result ChangeStatusRequest) (id : o.Uuid)
      → Answers (200 ∷ 400 ∷ 404 ∷ 409 ∷ 500 ∷ []) (
          strict_change_property_status encode
            (api_server o repo m)
            (error_handlers encode_error request_id)
            decoded
            id)
  unfolding strict_change_property_status api_server visit_change_property_status
  change-Answers decoded id =
      let codes = 200 ∷ 400 ∷ 404 ∷ 409 ∷ 500 ∷ [] in
      with_body-Answers encode_error request_id codes refl decoded _ λ body s.
        let changed = Httpapi.change_property_status o repo m.now id (some body.status) s in
        respond-Fails encode_error request_id codes (visit_change_property_status encode)
          change_property_status_200 changed.0 changed.1
          (Fails-mono (400 ∷ 404 ∷ 409 ∷ 500 ∷ []) codes _ refl
            (change_property_status-Fails o repo a m.now id (some body.status) s))
          λ b.
            visit_json-Answers encode_error request_id encode foreign codes 200 (json_property b)
              refl refl

  mount-Answers :
      (op : Operation o)
      → Answers (documented op) (mount encode_error request_id encode (api_server o repo m) op)
  unfolding mount handler_with_options strict_get_healthz api_server wrap_list_properties
      wrap_get_property wrap_update_property wrap_change_property_status
  mount-Answers Wrapper.get_healthz = λ s. healthz-Answers (get_healthz (checked m))
  mount-Answers (Wrapper.list_properties q) =
      let codes = 200 ∷ 400 ∷ 500 ∷ [] in
      bind_query-Answers encode_error request_id codes refl "page" q.page _ λ page.
        bind_query-Answers encode_error request_id codes refl "page_size" q.page_size _ λ page_size.
          bind_query-Answers encode_error request_id codes refl "status" q.status _ λ status.
            bind_query-Answers encode_error request_id codes refl "rental_mode" q.rental_mode _
              λ rental_mode.
                bind_query-Answers encode_error request_id codes refl "city" q.city _ λ city.
                  list-Answers (record {
                    page = page;
                    page_size = page_size;
                    status = status;
                    rental_mode = rental_mode;
                    city = city;
                  })
  mount-Answers (Wrapper.create_property decoded) = create-Answers decoded
  mount-Answers (Wrapper.get_property id) =
      bind_id-Answers encode_error request_id (200 ∷ 400 ∷ 404 ∷ 500 ∷ []) refl id _ get-Answers
  mount-Answers (Wrapper.update_property id decoded) =
      bind_id-Answers encode_error request_id (200 ∷ 400 ∷ 404 ∷ 500 ∷ []) refl id _
        (update-Answers decoded)
  mount-Answers (Wrapper.change_property_status id decoded) =
      bind_id-Answers encode_error request_id (200 ∷ 400 ∷ 404 ∷ 409 ∷ 500 ∷ []) refl id _
        (change-Answers decoded)

-- The whole service answers each operation of the API by a status that the generated response objects
-- document for it, or by 500, and the access log has the same, if no error of the database or of the
-- encoder carries an application error of its own.
pub new_handler-documented :
    (o : Outside) {S : Type 0} (d : Deps o S) (w : Writers o)
    → IsForeign o d.db
    → ((b : Json o) (e : GoError) → w.encode b ≡ err e → as_error e ≡ none)
    → (request_id : String) (r : RequestLine) (h : Header) (m : Moment o) (op : Operation o) (s : S)
    → let ((calls, entry), t) = new_handler o d w request_id r h m (api_route op) s in
      (has (documented op) (sent_status calls) ≡ true) × (has (documented op) entry.status ≡ true)
new_handler-documented o d w f foreign request_id r h m op s =
    let (sent, logged, same) = new_handler-status o d w request_id r h m op s in
    let repo = Pgrepo.repository o d.db in
    let answered =
      mount-Answers o repo (repository-IsAnswerable o d.db f) m w.encode w.encode_error request_id
        foreign op s in
    rw (sent, logged) (answered, answered)
