-- ===== src/App/Refused.antt =====
-- Requests for a property that the table does not have, and status changes that the state machine does not
-- have, from the route to the calls on the writer of the server.
use chuchu.Prelude.{ℕ, ◌≡◌, refl, ◌∙◌, true, false, String, some, []}
use chuchu.Apperr.{no_rows, GoError, http_status, as_error, errors_is}
use chuchu.Effect.{Result, ok, err, continue, pure}
use chuchu.Outside.{Outside}
use chuchu.Httpx.Guard.{Header}
use chuchu.Httpx.{write_error, write_json}
use chuchu.Property.{status_valid, can_transition}
use chuchu.Property.Input.{validate_update}
use chuchu.Property.Service
use chuchu.Property.Service.{transition_error, change_status, apply_status}
use chuchu.Property.Pgrepo
use chuchu.Property.Pgrepo.{PropertyModel, not_found_error, translate_select, to_domain}
use chuchu.Property.Httpapi
use chuchu.Property.Httpapi.{
  ApiProperty, UpdatePropertyRequest, get_property, update_property, change_property_status,
  to_update_input,
}
use chuchu.Api.{ChangeStatusRequest, visit_update_property, update_property_200}
use chuchu.Api.Strict.{respond, strict_update_property}
use chuchu.Api.Wrapper
use chuchu.Api.Wrapper.{Operation, handler_with_options, wrap_update_property}
use chuchu.Apihttp.Mount.{mount, error_handlers}
use chuchu.Server.{RequestLine}
use chuchu.Server.Chain.{sent_status}
use chuchu.App.{Moment, api_server, api_route, Deps, Writers, new_handler}
use chuchu.App.Moves.{mount-changed}
use chuchu.App.RoundTrip.{mount-got}
use chuchu.App.Responses.{continue-state}
use chuchu.App.Sent.{new_handler-status}
use chuchu.App.Problems.{problem_response, sent-problem}

module _ (o : Outside) {S : Type 0} (d : Deps o S) (w : Writers o) (request_id : String)
    (m : Moment o) (id : o.Uuid) (s : S) where
  abbrev pub updated : UpdatePropertyRequest → Result (ApiProperty o) × S
  updated body = Httpapi.update_property o (Pgrepo.repository o d.db) m.now id (some body) s

  pub mount-updated :
      (body : UpdatePropertyRequest)
      → mount w.encode_error request_id w.encode
          (api_server o (Pgrepo.repository o d.db) m)
          (Wrapper.update_property (ok id) (ok body))
          s
        ≡ (
          respond
              (error_handlers w.encode_error request_id)
              (visit_update_property w.encode)
              (continue (updated body).0 (λ p. pure (update_property_200 p)) (updated body).1).0,
          (updated body).1,
        )
  unfolding mount handler_with_options wrap_update_property strict_update_property api_server
  mount-updated body =
      rw (continue-state (updated body).0 update_property_200 (updated body).1) refl

  module _ (r : RequestLine) (h : Header) where
    -- What the service answers and leaves, where an operation fails.
    abbrev pub AnswersError : ℕ → Operation o → GoError → S → Type 0
    AnswersError status op e t =
        let ((calls, entry), u) = new_handler o d w request_id r h m (api_route op) s in
        (calls ≡ problem_response w.encode_error request_id h e)
        × (sent_status calls ≡ status)
        × (u ≡ t)

    failed-AnswersError :
        (status : ℕ) (op : Operation o) (e : GoError) (t : S)
        → (write_error request_id e).status ≡ status
        → mount w.encode_error request_id w.encode (api_server o (Pgrepo.repository o d.db) m) op s
          ≡ ((error_handlers w.encode_error request_id).response_error_handler e, t)
        → AnswersError status op e t
    unfolding sent_status
    failed-AnswersError status op e t coded mounted =
        let (_, _, state) = new_handler-status o d w request_id r h m op s in
        let calls = sent-problem o d w request_id r h m op s e (rw mounted refl) in
        (calls, rw calls coded, state ∙ rw mounted refl)

    -- When the query for an id finds no row, a reading, a valid update and a change to a valid status are
    -- all answered by 404 and the error of a property that is not found, and leave what the query left.
    pub new_handler-missing :
        (t : S) (change : UpdatePropertyRequest) (target : ChangeStatusRequest)
        → d.db.select_by_id id s ≡ (err no_rows, t)
        → validate_update o (to_update_input change) ≡ []
        → status_valid target.status ≡ true
        → AnswersError 404 (Wrapper.get_property (ok id)) not_found_error t
          × AnswersError 404 (Wrapper.update_property (ok id) (ok change)) not_found_error t
          × AnswersError 404 (Wrapper.change_property_status (ok id) (ok target)) not_found_error t
    unfolding get_property update_property change_property_status Service.get Service.update
        change_status Pgrepo.get_by_id translate_select errors_is write_error write_json as_error
        http_status
    new_handler-missing t change target none_found valid known = (
      failed-AnswersError 404 (Wrapper.get_property (ok id)) not_found_error t refl
          (rw (mount-got o d w request_id m id s, none_found) refl),
      failed-AnswersError 404 (Wrapper.update_property (ok id) (ok change)) not_found_error t refl
          (rw (mount-updated change, valid, none_found) refl),
      failed-AnswersError 404 (Wrapper.change_property_status (ok id) (ok target)) not_found_error t
          refl (rw (mount-changed o d w request_id m id target s, known, none_found) refl),
    )

    -- When the row that the query finds has a status from which the state machine does not lead to the
    -- valid status of the body, the change is answered by 409 and the error that names both, and leaves what the
    -- query left.
    pub new_handler-forbidden :
        (row : PropertyModel o) (t : S) (target : ChangeStatusRequest)
        → d.db.select_by_id id s ≡ (ok row, t)
        → status_valid target.status ≡ true
        → can_transition row.status target.status ≡ false
        → AnswersError 409
            (Wrapper.change_property_status (ok id) (ok target))
            (transition_error o row.status target.status)
            t
    unfolding change_property_status change_status apply_status Pgrepo.get_by_id to_domain
        write_error write_json as_error http_status
    new_handler-forbidden row t target found known refused =
        failed-AnswersError 409 (Wrapper.change_property_status (ok id) (ok target))
          (transition_error o row.status target.status) t refl
          (rw (mount-changed o d w request_id m id target s, known, found, refused) refl)
