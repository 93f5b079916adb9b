-- ===== src/App/Calls.antt =====
-- The calls of the property service that a request to the API of internal/app makes.
use chuchu.Prelude.{◌≡◌, refl, ◌∙◌, not, true, false, inl, inr, Bool-cases, String, List, [], ◌∷◌}
use chuchu.Effect.{Result, ok, err}
use chuchu.Outside.{Outside}
use chuchu.Property.{status_valid}
use chuchu.Property.Service
use chuchu.Property.Service.{Repository, change_status}
use chuchu.Property.Service.Runs.{
  Op, create_op, update_op, status_op, get_op, list_op, run_op, run_ops,
}
use chuchu.Property.Httpapi
use chuchu.Property.Httpapi.{
  CreatePropertyRequest, UpdatePropertyRequest, ListPropertiesParams, to_list_filter,
  to_create_input, to_update_input, to_property_list, to_api_property,
}
use chuchu.Api.{
  Json, Handler, ChangeStatusRequest, ErrorHandlers, list_properties_200, create_property_201,
  get_property_200, update_property_200, change_property_status_200,
}
use chuchu.Api.Strict.{
  with_body, strict_list_properties, strict_create_property, strict_get_property,
  strict_update_property, strict_change_property_status, strict_get_healthz,
}
use chuchu.Api.Wrapper
use chuchu.Api.Wrapper.{
  Bound, bound, not_bound, bind_query, bind_id, Operation, handler_with_options,
  wrap_list_properties, wrap_get_property, wrap_update_property, wrap_change_property_status,
}
use chuchu.App.{Moment, api_server}
use chuchu.App.Responses.{continue-state}

module _ (o : Outside) {S : Type 0} (repo : Repository o S) where
  -- The state after the handler is that after these calls of the service.
  pub record Calls (s t : S) : Type 0 where
    pub ops : List (Op o)
    pub same : t ≡ run_ops o repo ops s

  no_call : (s : S) → Calls s s
  unfolding run_ops
  no_call s = record { ops = []; same = refl }

  one_call : (op : Op o) (s t : S) → t ≡ run_op o repo op s → Calls s t
  unfolding run_ops
  one_call op s t h = record { ops = op ∷ []; same = h }

  abbrev pub IsCalls : Handler S → Type 0
  IsCalls handler = (s : S) → Calls s (handler s).1

  module _ (options : ErrorHandlers) where
    bind_query-IsCalls :
        {A : Type 0} (name : String) (b : Bound A) (next : A → Handler S)
        → ((a : A) → IsCalls (next a))
        → IsCalls (bind_query options name b next)
    bind_query-IsCalls name (bound a) next h s = h a s
    bind_query-IsCalls name (not_bound true e) next h s = no_call s
    bind_query-IsCalls name (not_bound false e) next h s = no_call s

    bind_id-IsCalls :
        {A : Type 0} (id : Result A) (next : A → Handler S)
        → ((a : A) → IsCalls (next a))
        → IsCalls (bind_id options id next)
    bind_id-IsCalls (ok a) next h s = h a s
    bind_id-IsCalls (err e) next h s = no_call s

    with_body-IsCalls :
        {A : Type 0} (decoded : Result A) (next : A → Handler S)
        → ((a : A) → IsCalls (next a))
        → IsCalls (with_body options decoded next)
    with_body-IsCalls (ok a) next h s = h a s
    with_body-IsCalls (err e) next h s = no_call s

  module _ (m : Moment o) (encode : Json o → Result String) (options : ErrorHandlers) where
    list-IsCalls :
        (params : ListPropertiesParams)
        → IsCalls (strict_list_properties encode (api_server o repo m) options params)
    unfolding strict_list_properties api_server Httpapi.list_properties run_op
    list-IsCalls params s =
        let listed = Service.list o repo (to_list_filter params) s in
        one_call (list_op (to_list_filter params)) s _ (
          continue-state _ list_properties_200 _
          ∙ continue-state listed.0 (to_property_list o) listed.1)

    create-IsCalls :
        (decoded : Result CreatePropertyRequest)
        → IsCalls (strict_create_property encode (api_server o repo m) options decoded)
    unfolding strict_create_property api_server Httpapi.create_property run_op
    create-IsCalls decoded = with_body-IsCalls options decoded _ λ body s.
        let made = Service.create o repo m.new_id m.now (to_create_input body) s in
        one_call (create_op m.new_id m.now (to_create_input body)) s _ (
          continue-state _ create_property_201 _ ∙ continue-state made.0 (to_api_property o) made.1)

    get-IsCalls :
        (id : o.Uuid) → IsCalls (strict_get_property encode (api_server o repo m) options id)
    unfolding strict_get_property api_server Httpapi.get_property run_op
    get-IsCalls id s =
        let read = Service.get o repo id s in
        one_call (get_op id) s _
          (continue-state _ get_property_200 _ ∙ continue-state read.0 (to_api_property o) read.1)

    update-IsCalls :
        (decoded : Result UpdatePropertyRequest) (id : o.Uuid)
        → IsCalls (strict_update_property encode (api_server o repo m) options decoded id)
    unfolding strict_update_property api_server Httpapi.update_property run_op
    update-IsCalls decoded id = with_body-IsCalls options decoded _ λ body s.
        let made = Service.update o repo m.now id (to_update_input body) s in
        one_call (update_op m.now id (to_update_input body)) s _ (
          continue-state _ update_property_200 _ ∙ continue-state made.0 (to_api_property o) made.1)

    change-IsCalls :
        (decoded : Result ChangeStatusRequest) (id : o.Uuid)
        → IsCalls (strict_change_property_status encode (api_server o repo m) options decoded id)
    unfolding strict_change_property_status api_server Httpapi.change_property_status run_op
    change-IsCalls decoded id = with_body-IsCalls options decoded _ λ body s.
        elim (Bool-cases (not (status_valid body.status))) [
          | inl bad ↦ rw bad (no_call s)
          | inr good ↦
              let made = change_status o repo m.now id body.status s in
              rw good (
                one_call (status_op m.now id body.status) s _ (
                  continue-state _ change_property_status_200 _
                  ∙ continue-state made.0 (to_api_property o) made.1))
        ]

    pub mount-IsCalls :
        (op : Operation o) → IsCalls (handler_with_options encode (api_server o repo m) options op)
    unfolding handler_with_options strict_get_healthz api_server wrap_list_properties
        wrap_get_property wrap_update_property wrap_change_property_status
    mount-IsCalls Wrapper.get_healthz = no_call
    mount-IsCalls (Wrapper.list_properties q) = bind_query-IsCalls options "page" q.page _ λ page.
        bind_query-IsCalls options "page_size" q.page_size _ λ page_size.
          bind_query-IsCalls options "status" q.status _ λ status.
            bind_query-IsCalls options "rental_mode" q.rental_mode _ λ rental_mode.
              bind_query-IsCalls options "city" q.city _ λ city. list-IsCalls (record {
                page = page;
                page_size = page_size;
                status = status;
                rental_mode = rental_mode;
                city = city;
              })
    mount-IsCalls (Wrapper.create_property decoded) = create-IsCalls decoded
    mount-IsCalls (Wrapper.get_property id) = bind_id-IsCalls options id _ get-IsCalls
    mount-IsCalls (Wrapper.update_property id decoded) =
        bind_id-IsCalls options id _ (update-IsCalls decoded)
    mount-IsCalls (Wrapper.change_property_status id decoded) =
        bind_id-IsCalls options id _ (change-IsCalls decoded)
