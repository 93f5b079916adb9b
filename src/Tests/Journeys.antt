-- ===== src/Tests/Journeys.antt =====
-- Whole requests that the service refuses, and a creation that is read again, on the small world.
use chuchu.Prelude.{◌==◌, ◌||◌, not, is_blank, true}
use mathlib.Core.Path.{subst}
use chuchu.Prelude.{some_injective}
use chuchu.App.Succeeds.{creation_succeeds, changes_succeed}
use chuchu.Prelude.{some, []}
use chuchu.Property.{Property}
use chuchu.App.Updates.{new_handler-Updated}
use chuchu.Property.Httpapi.Updates.{Updated}
use chuchu.Property.Httpapi.{to_update_input, to_api_property, update_property}
use chuchu.Property.Pgrepo.{check_affected}
use chuchu.Property.Service.{apply_update}
use chuchu.Property.Pgrepo.Refines.{repository-IsRepository}
use chuchu.Api.{json_property, visit_update_property}
use chuchu.Api.Strict.{strict_update_property}
use chuchu.Api.Wrapper.{wrap_update_property}
use chuchu.Tests.World.{memory}
use chuchu.Tests.Site.{encode}
use chuchu.Prelude.Text.{trim_space}
use chuchu.Prelude.{pos, refl, ◌≡◌, String, none}
use chuchu.Effect.{ok}
use chuchu.Property.{status_valid, layout_valid, rental_mode_valid, can_transition}
use chuchu.Property.Httpapi.{
  ApiProperty, CreatePropertyRequest, UpdatePropertyRequest, to_create_input, create_property,
}
use chuchu.Property.Pgrepo
use chuchu.Property.Pgrepo.{to_model, to_domain, duplicate_error, not_found_error}
use chuchu.Property.Pgrepo.Refines.{fit, rows}
use chuchu.Property.Service
use chuchu.Property.Service.Lost.{apply_update-status}
use chuchu.Property.Service.{parse_input, parse_fee, build, transition_error}
use chuchu.Property.Service.Contract.{Same}
use chuchu.Property.Input.{
  validate, validate_positive_decimal, validate_non_negative_decimal, validate_update,
}
use chuchu.Api.{visit_create_property}
use chuchu.Api.Strict.{strict_create_property}
use chuchu.Api.Wrapper
use chuchu.Api.Wrapper.{handler_with_options}
use chuchu.Api.Statuses.{action_status}
use chuchu.Apihttp.Mount.{mount}
use chuchu.Server.Chain.{sent_status}
use chuchu.App.{Route, api_route, new_handler, api_server}
use chuchu.App.Sent.{new_handler-status}
use chuchu.App.Responses.{json_response}
use chuchu.App.Problems.{problem_response}
use chuchu.App.Duplicates.{new_handler-duplicate}
use chuchu.App.RoundTrip.{in_micros, get-create}
use chuchu.App.Refused.{AnswersError, new_handler-missing, new_handler-forbidden}
use chuchu.Tests.World.{world, find, memory-IsDb, world-DecimalLaws}
use chuchu.Tests.Indexed.{memory-IsIndexed, memory-reported}
use chuchu.Tests.Site.{room, rooms, writers, request, moment, deps, new_room, let_out}

-- The room that is there already
abbrev same_room : CreatePropertyRequest
same_room = record new_room { room_no = "A" }

abbrev no_change : UpdatePropertyRequest
no_change = record {
  deposit_months = none;
  landlord_name = none;
  landlord_phone = none;
  layout = none;
  management_fee = none;
  monthly_rent = none;
}

new_handler-duplicate_example :
    let ((calls, entry), t) =
      new_handler world deps writers "r1" request
        (λ k. "")
        moment
        (api_route (Wrapper.create_property (ok same_room)))
        rooms in
    (calls ≡ problem_response writers.encode_error "r1" (λ k. "") duplicate_error)
    × (sent_status calls ≡ 409)
    × Same world (rows world find) rooms t
unfolding rows to_model to_domain validate validate_positive_decimal validate_non_negative_decimal
    rental_mode_valid layout_valid trim_space
new_handler-duplicate_example =
    new_handler-duplicate world find deps writers world-DecimalLaws memory-IsIndexed "r1" request
      (λ k. "") moment same_room rooms 7 room refl refl refl refl
      (λ area rent fee e ra rr rf.
        memory-reported (to_model world (build world 8 3 (to_create_input same_room) area rent fee))
          rooms e)

get-create_example :
    let create : Route world = api_route (Wrapper.create_property (ok new_room)) in
    let get : Route world = api_route (Wrapper.get_property (ok 8)) in
    let ((calls, _), t) =
      new_handler world deps writers "r1" request (λ k. "") moment create rooms in
    let ((calls', _), _) = new_handler world deps writers "r2" request (λ k. "") moment get t in
    (a : ApiProperty world) × ((text : String) × (encode (json_property a) ≡ ok text)
      × (calls ≡ json_response 201 "r1" (λ k. "") text))
    × ((text : String) × (encode (json_property (in_micros world a)) ≡ ok text)
        × (calls' ≡ json_response 200 "r2" (λ k. "") text))
unfolding new_handler action_status mount handler_with_options strict_create_property api_server
    visit_create_property create_property Service.create validate validate_positive_decimal
    validate_non_negative_decimal rental_mode_valid layout_valid parse_input parse_fee build
    Pgrepo.create to_model trim_space
get-create_example =
    let op : Wrapper.Operation world = Wrapper.create_property (ok new_room) in
    get-create world find deps writers world-DecimalLaws memory-IsDb (λ b. ("{}", refl)) "r1" "r2"
      request request (λ k. "") (λ k. "") moment moment new_room
      (fit world
        (to_model world (build world 8 3 (to_create_input new_room) (pos 28) (pos 25000) (pos 0))))
      rooms (new_handler-status world deps writers "r1" request (λ k. "") moment op rooms).0 refl

new_handler-missing_example :
    AnswersError world deps writers "r1" moment 9 rooms request
      (λ k. "")
      404
      (Wrapper.get_property (ok 9))
      not_found_error
      rooms
    × AnswersError world deps writers "r1" moment 9 rooms request
        (λ k. "")
        404
        (Wrapper.update_property (ok 9) (ok no_change))
        not_found_error
        rooms
    × AnswersError world deps writers "r1" moment 9 rooms request
        (λ k. "")
        404
        (Wrapper.change_property_status (ok 9) (ok let_out))
        not_found_error
        rooms
unfolding to_model status_valid validate_update
new_handler-missing_example =
    new_handler-missing world deps writers "r1" moment 9 rooms request (λ k. "") rooms no_change
      let_out refl refl refl

new_handler-forbidden_example :
    AnswersError world deps writers "r1" moment 7 rooms request
      (λ k. "")
      409
      (Wrapper.change_property_status (ok 7) (ok (record { status = "VACANT" })))
      (transition_error world "VACANT" "VACANT")
      rooms
unfolding to_model status_valid can_transition
new_handler-forbidden_example =
    new_handler-forbidden world deps writers "r1" moment 7 rooms request (λ k. "")
      (to_model world room) rooms (record { status = "VACANT" }) refl refl refl

abbrev new_owner : UpdatePropertyRequest
new_owner = record no_change { landlord_name = some "王"; management_fee = some "" }

new_handler-Updated_example :
    let op : Route world = api_route (Wrapper.update_property (ok 7) (ok new_owner)) in
    let ((calls, entry), t) =
      new_handler world deps writers "r1" request (λ k. "") moment op rooms in
    (validate_update world (to_update_input new_owner) ≡ [])
    × ((q : Property world) × Updated world
          (rows world find)
          (Pgrepo.repository world memory)
          (repository-IsRepository world find memory memory-IsDb)
          3
          7
          (to_update_input new_owner)
          rooms
          q
          t
        × ((text : String) × (encode (json_property (to_api_property world q)) ≡ ok text)
            × (calls ≡ json_response 200 "r1" (λ k. "") text)))
unfolding action_status mount handler_with_options wrap_update_property strict_update_property
    api_server visit_update_property update_property Service.update validate_update apply_update
    parse_fee Pgrepo.get_by_id Pgrepo.update to_model to_domain check_affected
    validate_non_negative_decimal trim_space
new_handler-Updated_example =
    let op : Wrapper.Operation world = Wrapper.update_property (ok 7) (ok new_owner) in
    new_handler-Updated world find deps writers memory-IsDb "r1" request (λ k. "") moment 7
      new_owner rooms
      (new_handler-status world deps writers "r1" request (λ k. "") moment op rooms).0

creation_succeeds_example :
    let op : Route world = api_route (Wrapper.create_property (ok new_room)) in
    let ((calls, entry), t) = new_handler world deps writers "r1" request (λ k. "") moment op [] in
    (text : String) × (calls ≡ json_response 201 "r1" (λ k. "") text)
unfolding validate validate_positive_decimal validate_non_negative_decimal rental_mode_valid
    layout_valid trim_space
creation_succeeds_example =
    creation_succeeds world deps writers (λ b. ("{}", refl)) "r1" request (λ k. "") moment []
      world-DecimalLaws new_room refl refl (λ area rent fee ra rr rf. refl)

updates_room :
    (q : Property world)
    → q.id ≡ 7
    → (memory.update_by_pk (to_model world q) rooms).0 ≡ ok (ok (pos 1))
unfolding to_model
updates_room q same = rw same refl

changes_succeed_example :
    let change : Route world = api_route (Wrapper.update_property (ok 7) (ok new_owner)) in
    let move : Route world = api_route (Wrapper.change_property_status (ok 7) (ok let_out)) in
    let calls = (new_handler world deps writers "r1" request (λ k. "") moment change rooms).0.0 in
    let calls' = (new_handler world deps writers "r1" request (λ k. "") moment move rooms).0.0 in
    ((text : String) × (calls ≡ json_response 200 "r1" (λ k. "") text))
    × ((text : String) × (calls' ≡ json_response 200 "r1" (λ k. "") text))
unfolding validate_update validate_non_negative_decimal status_valid can_transition to_model
    trim_space to_domain
changes_succeed_example =
    changes_succeed world deps writers (λ b. ("{}", refl)) "r1" request (λ k. "") moment rooms 7
      (to_model world room) rooms new_owner let_out refl
      (λ q applied.
        updates_room q (apply_update-status world 3 (to_update_input new_owner) room applied).1)
      refl refl
      (λ fee given. subst (λ s. (s == "") || not (is_blank s) ≡ true) (some_injective given) refl)
      refl refl
