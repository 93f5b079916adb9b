-- ===== src/App/RoundTrip.antt =====
-- `GET /properties/{id}` after the `POST /properties` that made the property, through the whole of
-- internal/app.
use mathlib.Core.Option
use chuchu.Prelude.{◌≡◌, refl, ap, ◌∙◌, sym, String, Option, some_injective}
use chuchu.Effect.{Result, ok, continue, pure}
use chuchu.Outside.{Outside, DecimalLaws}
use chuchu.Httpx.Guard.{Header}
use chuchu.Property.{Property}
use chuchu.Property.Service
use chuchu.Property.Service.Contract.{stored}
use chuchu.Property.Pgrepo
use chuchu.Property.Pgrepo.{PropertyModel}
use chuchu.Property.Pgrepo.Refines.{IsDb, rows}
use chuchu.Property.Httpapi
use chuchu.Property.Httpapi.{CreatePropertyRequest, ApiProperty, to_api_property, get_property}
use chuchu.Api.{Json, json_property, get_property_200, visit_get_property}
use chuchu.Api.Strict.{respond, strict_get_property}
use chuchu.Api.Wrapper
use chuchu.Api.Wrapper.{handler_with_options, wrap_get_property}
use chuchu.Apihttp.Mount.{mount, error_handlers}
use chuchu.Server.{RequestLine}
use chuchu.Server.Chain.{sent_status}
use chuchu.App.{Moment, api_server, api_route, Deps, Writers, new_handler}
use chuchu.App.Responses.{json_response, answer, continue-state}
use chuchu.App.Creates.{new_handler-Created}
use chuchu.App.Success.{sent-answer}

module _ (o : Outside) {S : Type 0} (d : Deps o S) (w : Writers o) (request_id : String)
    (m : Moment o) (id : o.Uuid) (s : S) where
  abbrev pub got : Result (ApiProperty o) × S
  got = Httpapi.get_property o (Pgrepo.repository o d.db) id s

  pub mount-got :
      mount w.encode_error request_id w.encode
        (api_server o (Pgrepo.repository o d.db) m)
        (Wrapper.get_property (ok id))
        s
      ≡ (
        respond
            (error_handlers w.encode_error request_id)
            (visit_get_property w.encode)
            (continue got.0 (λ p. pure (get_property_200 p)) got.1).0,
        got.1,
      )
  unfolding mount handler_with_options wrap_get_property strict_get_property api_server
  mount-got = rw (continue-state got.0 get_property_200 got.1) refl

  -- A request for a property that the database answers sends the encoded property.
  mount-row :
      (row : PropertyModel o) (text : String)
      → (d.db.select_by_id id s).0 ≡ ok row
      → w.encode (json_property (to_api_property o (Pgrepo.to_domain o row))) ≡ ok text
      → (mount w.encode_error request_id w.encode
          (api_server o (Pgrepo.repository o d.db) m)
          (Wrapper.get_property (ok id))
          s).0
        ≡ answer 200 text
  unfolding get_property Service.get Pgrepo.get_by_id visit_get_property
  mount-row row text found encoded = rw (mount-got, found, encoded) refl

-- The property with instants of whole microseconds.
abbrev pub in_micros : (o : Outside) → ApiProperty o → ApiProperty o
in_micros o a = record a {
  created_at = o.round_time a.created_at;
  updated_at = o.round_time a.updated_at;
}

-- An amount that the column has rounded is shown as the amount that was given.
to_api_property-stored :
    (o : Outside) (d : DecimalLaws o) (p : Property o)
    → to_api_property o (stored o p) ≡ in_micros o (to_api_property o p)
unfolding to_api_property
to_api_property-stored o d p =
    rw (d.round_fixed p.area_ping, d.round_fixed p.monthly_rent, d.round_fixed p.management_fee)
      refl

-- When the service has answered `POST /properties` by 201, and a database that does what is documented of
-- it then answers the query for the new id, `GET /properties/{id}` is answered by 200 and the property that
-- the creation was answered by, but for its two instants, which the database has rounded; with an encoder
-- that works, and decimals that do what is documented of them.
pub get-create :
    (o : Outside) {S : Type 0} (table : S → o.Uuid → Option (PropertyModel o)) (d : Deps o S)
    (w : Writers o)
    → DecimalLaws o
    → IsDb o table d.db
    → ((b : Json o) → (text : String) × (w.encode b ≡ ok text))
    → (posted got : String) (r r' : RequestLine) (h h' : Header) (m m' : Moment o)
      (body : CreatePropertyRequest) (row : PropertyModel o) (s : S)
    → let create = api_route (Wrapper.create_property (ok body)) in
      let get = api_route (Wrapper.get_property (ok m.new_id)) in
      let ((calls, _), t) = new_handler o d w posted r h m create s in
      let ((calls', _), _) = new_handler o d w got r' h' m' get t in
      sent_status calls ≡ 201
      → (d.db.select_by_id m.new_id t).0 ≡ ok row
      → (a : ApiProperty o) × ((text : String) × (w.encode (json_property a) ≡ ok text)
          × (calls ≡ json_response 201 posted h text))
        × ((text : String) × (w.encode (json_property (in_micros o a)) ≡ ok text)
            × (calls' ≡ json_response 200 got h' text))
unfolding rows
get-create o table d w decimals law encodes posted got r r' h h' m m' body row s sent found =
    let (p, made, answered) =
      new_handler-Created o table d w decimals law posted r h m body s sent in
    let op = Wrapper.get_property (ok m.new_id) in
    let t = (new_handler o d w posted r h m (api_route (Wrapper.create_property (ok body))) s).1 in
    let here = ap (Option.map (Pgrepo.to_domain o)) (law.select_reads m.new_id t row found) in
    let same : Pgrepo.to_domain o row ≡ stored o p =
      some_injective (sym here ∙ ap (rows o table t) (sym made.same_id) ∙ made.wrote.written) in
    let shown : to_api_property o (Pgrepo.to_domain o row) ≡ in_micros o (to_api_property o p) =
      ap (to_api_property o) same ∙ to_api_property-stored o decimals p in
    let (text, encoded) = encodes (json_property (in_micros o (to_api_property o p))) in
    (
      to_api_property o p,
      answered,
      (
        text,
        encoded,
        sent-answer o d w got r' h' m' op t 200 text (
            mount-row o d w got m' m.new_id t row text found
              (ap (λ a. w.encode (json_property a)) shown ∙ encoded)),
      ),
    )
