-- ===== src/Tests/Requests.antt =====
-- Whole requests, from the route to the response, on the small world.
use chuchu.Prelude.{refl, ◌≡◌, true, false, String, [], ◌∷◌, none}
use chuchu.Prelude.Text.{trim_space}
use chuchu.Apperr.{foreign}
use chuchu.Effect.{ok}
use chuchu.Httpx.Failures.{has}
use chuchu.Property.{Property, status_valid, layout_valid, rental_mode_valid, can_transition}
use chuchu.Property.Service.{change_status, apply_status}
use chuchu.Property.Httpapi.{create_property, change_property_status, to_api_property}
use chuchu.Property.Httpapi.Changes.{Moved}
use chuchu.Property.Pgrepo
use chuchu.Property.Pgrepo.{Db, PropertyModel, repository, to_model, to_domain, check_affected}
use chuchu.Property.Pgrepo.Refines.{rows, repository-IsRepository}
use chuchu.Api.{json_property, json_health, visit_change_property_status, visit_create_property}
use chuchu.Api.Strict.{strict_change_property_status, strict_create_property}
use chuchu.Api.Wrapper
use chuchu.Api.Wrapper.{
  ListQuery, bound, not_bound, handler_with_options, wrap_change_property_status,
}
use chuchu.Api.Statuses.{action_status}
use chuchu.Apihttp.Mount.{mount}
use chuchu.Server.Chain.{sent_status}
use chuchu.App.{Route, api_route, new_handler, api_server}
use chuchu.App.Sent.{new_handler-status}
use chuchu.App.Contract.{new_handler-documented}
use chuchu.App.Creates.{new_handler-Created}
use chuchu.Property.Httpapi.Creates.{Created}
use chuchu.Property.Service
use chuchu.Property.Service.{parse_input, parse_fee, build}
use chuchu.Property.Input.{validate, validate_positive_decimal, validate_non_negative_decimal}
use chuchu.App.Moves.{new_handler-Moved}
use chuchu.App.Responses.{json_response}
use chuchu.App.Readiness.{Names, new_handler-healthz}
use chuchu.Health.{Report}
use chuchu.Tests.World.{world, find, memory, memory-IsDb, world-DecimalLaws, memory-IsForeign}
use chuchu.Tests.Site.{
  rooms, encode, encode-foreign, writers, request, moment, deps, new_room, let_out,
}

-- A listing with a page that is no number.
abbrev bad_listing : Wrapper.Operation world
bad_listing = Wrapper.list_properties (record {
  page = not_bound false (foreign "abc");
  page_size = bound none;
  status = bound none;
  rental_mode = bound none;
  city = bound none;
})

new_handler-documented_example :
    let ((calls, entry), t) =
      new_handler world deps writers "r1" request (λ k. "") moment (api_route bad_listing) rooms in
    (has (200 ∷ 400 ∷ 500 ∷ []) (sent_status calls) ≡ true)
    × (has (200 ∷ 400 ∷ 500 ∷ []) entry.status ≡ true)
new_handler-documented_example =
    new_handler-documented world deps writers memory-IsForeign encode-foreign "r1" request (λ k. "")
      moment bad_listing rooms

new_handler-Moved_example :
    let op : Route world = api_route (Wrapper.change_property_status (ok 7) (ok let_out)) in
    let ((calls, entry), t) =
      new_handler world deps writers "r1" request (λ k. "") moment op rooms in
    (status_valid "OCCUPIED" ≡ true)
    × ((q : Property world) × Moved world
          (rows world find)
          (repository world memory)
          (repository-IsRepository world find memory memory-IsDb)
          3
          7
          "OCCUPIED"
          rooms
          q
          t
        × ((text : String) × (encode (json_property (to_api_property world q)) ≡ ok text)
            × (calls ≡ json_response 200 "r1" (λ k. "") text)))
unfolding action_status mount handler_with_options wrap_change_property_status
    strict_change_property_status api_server visit_change_property_status change_property_status
    status_valid change_status apply_status can_transition Pgrepo.get_by_id Pgrepo.update to_model
    to_domain check_affected
new_handler-Moved_example =
    let op : Wrapper.Operation world = Wrapper.change_property_status (ok 7) (ok let_out) in
    new_handler-Moved world find deps writers memory-IsDb "r1" request (λ k. "") moment 7 let_out
      rooms (new_handler-status world deps writers "r1" request (λ k. "") moment op rooms).0

new_handler-healthz_example :
    let ((calls, entry), t) =
      new_handler world deps writers "r1" request
        (λ k. "")
        moment
        (api_route Wrapper.get_healthz)
        rooms in
    (report : Report) × (text : String) × Names moment report
    × (encode (json_health report) ≡ ok text)
    × (calls ≡ json_response 503 "r1" (λ k. "") text)
    × (t ≡ rooms)
new_handler-healthz_example =
    new_handler-healthz world deps writers (λ b. ("{}", refl)) "r1" request (λ k. "") moment rooms

new_handler-Created_example :
    let op : Route world = api_route (Wrapper.create_property (ok new_room)) in
    let ((calls, entry), t) =
      new_handler world deps writers "r1" request (λ k. "") moment op rooms in
    (p : Property world) × Created world
      (rows world find)
      world-DecimalLaws
      (repository world memory)
      (repository-IsRepository world find memory memory-IsDb)
      8
      3
      rooms
      p
      t
    × ((text : String) × (encode (json_property (to_api_property world p)) ≡ ok text)
        × (calls ≡ json_response 201 "r1" (λ k. "") text))
unfolding action_status mount handler_with_options strict_create_property api_server
    visit_create_property create_property Service.create validate validate_positive_decimal
    validate_non_negative_decimal rental_mode_valid layout_valid parse_input parse_fee build
    Pgrepo.create to_model trim_space
new_handler-Created_example =
    let op : Wrapper.Operation world = Wrapper.create_property (ok new_room) in
    new_handler-Created world find deps writers world-DecimalLaws memory-IsDb "r1" request (λ k. "")
      moment new_room rooms
      (new_handler-status world deps writers "r1" request (λ k. "") moment op rooms).0
