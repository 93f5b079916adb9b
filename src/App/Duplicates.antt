-- ===== src/App/Duplicates.antt =====
-- A second property under one address, from `POST /properties` to the calls on the writer of the server.
use chuchu.Prelude.{◌≡◌, refl, String, Option, some, true, not, ◌==◌, ◌||◌, is_blank, []}
use chuchu.Effect.{ok, err, pure, ◌>>◌}
use chuchu.Outside.{Outside, DecimalLaws}
use chuchu.Httpx.{write_error, write_json}
use chuchu.Httpx.Guard.{Header}
use chuchu.Apperr.{GoError, http_status, as_error}
use chuchu.Property.{Property}
use chuchu.Property.Input.{CreateInput, validate}
use chuchu.Property.Validation.{validate-eq_nil_iff}
use chuchu.Property.Service.{Repository, build, create, parse_fee}
use chuchu.Property.Service.Contract.{Same}
use chuchu.Property.Service.Refusals.{parse_input_value}
use chuchu.Property.Service.Overlap.Kept.{address}
use chuchu.Property.Pgrepo
use chuchu.Property.Pgrepo.{
  PropertyModel, duplicate_error, as_pg_error, is_unique_violation, translate_insert,
}
use chuchu.Property.Pgrepo.Refines.{rows}
use chuchu.Property.Pgrepo.Indexes.{IsIndexed, refused_create}
use chuchu.Property.Httpapi.{CreatePropertyRequest, create_property, to_create_input}
use chuchu.Api.Wrapper
use chuchu.Server.{RequestLine}
use chuchu.Server.Chain.{sent_status}
use chuchu.App.{Moment, api_route, Deps, Writers, new_handler}
use chuchu.App.Creates.{created, mount-created}
use chuchu.App.Sent.{new_handler-status}
use chuchu.App.Problems.{problem_response, sent-problem}

-- A valid creation hands over the property with the amounts of the input, and fails by its error.
pub create_valid_input :
    (o : Outside) {S : Type 0} (repo : Repository o S) (decimals : DecimalLaws o) (id : o.Uuid)
    (now : o.Time) (input : CreateInput) (s : S)
    → validate o input ≡ []
    → (input.management_fee == "") || not (is_blank input.management_fee) ≡ true
    → (area rent fee : o.Decimal) × (o.new_from_string input.area_ping ≡ ok area)
      × (o.new_from_string input.monthly_rent ≡ ok rent)
      × (parse_fee o input.management_fee ≡ ok fee)
      × (create o repo id now input s
          ≡ (repo.create (build o id now input area rent fee)
                >> pure (build o id now input area rent fee))
              s)
unfolding create
create_valid_input o repo decimals id now input s valid plain =
    let v = (validate-eq_nil_iff o input).0 valid in
    let (area, rent, fee, ra, rr, rf, parsed) = parse_input_value o decimals input v id now plain in
    (area, rent, fee, ra, rr, rf, rw (valid, parsed))

module _ (o : Outside) {S : Type 0} (table : S → o.Uuid → Option (PropertyModel o)) (d : Deps o S)
    (w : Writers o) (decimals : DecimalLaws o) (index : IsIndexed o table d.db) (m : Moment o)
    (body : CreatePropertyRequest) (s : S) (j : o.Uuid) (q : Property o)
    (taken : rows o table s j ≡ some q)
    (same : address q ≡ (body.city, body.district, body.street_address, body.floor, body.room_no))
    (valid : validate o (to_create_input body) ≡ [])
    (plain : (to_create_input body).management_fee == ""
        || not (is_blank (to_create_input body).management_fee)
      ≡ true)
    (reported : (area rent fee : o.Decimal) (e : GoError)
      → o.new_from_string body.area_ping ≡ ok area
      → o.new_from_string body.monthly_rent ≡ ok rent
      → parse_fee o (to_create_input body).management_fee ≡ ok fee
      → let row = Pgrepo.to_model o (build o m.new_id m.now (to_create_input body) area rent fee) in
        (d.db.insert row s).0 ≡ err e → is_unique_violation (as_pg_error e) ≡ true) where
  created-duplicate :
      (t : S) × (created o d w "" m body s ≡ (err duplicate_error, t)) × Same o (rows o table) s t
  unfolding create_property build translate_insert
  created-duplicate =
      let input = to_create_input body in
      let repo = Pgrepo.repository o d.db in
      let (area, rent, fee, ra, rr, rf, run) =
        create_valid_input o repo decimals m.new_id m.now input s valid plain in
      let p = build o m.new_id m.now input area rent fee in
      let (kept, (e, failed, refused)) = refused_create o table d.db index p q j s taken same in
      let violated = reported area rent fee e ra rr rf failed in
      ((Pgrepo.create o d.db p s).1, rw (run, refused, violated) refl, kept)

-- When the body is valid, with a fee that is empty or not blank, its address stands in the table, and the
-- `INSERT` of its row, if it fails, reports a violated unique key, the service answers by 409 and the error
-- of a duplicate, and the table is as it was: on a database whose index on the address refuses the row, and
-- with decimals that do what is documented of them.
pub new_handler-duplicate :
    (o : Outside) {S : Type 0} (table : S → o.Uuid → Option (PropertyModel o)) (d : Deps o S)
    (w : Writers o)
    → DecimalLaws o
    → IsIndexed o table d.db
    → (request_id : String) (r : RequestLine) (h : Header) (m : Moment o)
      (body : CreatePropertyRequest) (s : S) (j : o.Uuid) (q : Property o)
    → let input = to_create_input body in
      let op = api_route (Wrapper.create_property (ok body)) in
      let ((calls, entry), t) = new_handler o d w request_id r h m op s in
      rows o table s j ≡ some q
      → address q ≡ (body.city, body.district, body.street_address, body.floor, body.room_no)
      → validate o input ≡ []
      → (input.management_fee == "") || not (is_blank input.management_fee) ≡ true
      → ((area rent fee : o.Decimal) (e : GoError)
          → o.new_from_string body.area_ping ≡ ok area
          → o.new_from_string body.monthly_rent ≡ ok rent
          → parse_fee o input.management_fee ≡ ok fee
          → (d.db.insert (Pgrepo.to_model o (build o m.new_id m.now input area rent fee)) s).0
            ≡ err e
          → is_unique_violation (as_pg_error e) ≡ true)
      → (calls ≡ problem_response w.encode_error request_id h duplicate_error)
        × (sent_status calls ≡ 409)
        × Same o (rows o table) s t
unfolding sent_status write_error write_json as_error http_status
new_handler-duplicate o table d w decimals index request_id r h m body s j q taken same valid plain
      reported =
    let op = Wrapper.create_property (ok body) in
    let (t, run, kept) =
      created-duplicate o table d w decimals index m body s j q taken same valid plain reported in
    let mounted = mount-created o d w request_id m body s in
    let calls = sent-problem o d w request_id r h m op s duplicate_error (rw (mounted, run) refl) in
    let (_, _, state) = new_handler-status o d w request_id r h m op s in
    (calls, rw calls refl, rw (state, mounted, run) kept)
