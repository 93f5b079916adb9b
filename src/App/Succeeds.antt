-- ===== src/App/Succeeds.antt =====
-- Requests that the whole of internal/app carries out, when the database and the encoder do.
use chuchu.Prelude.{
  eq_true_of_not, pos, ◌≡◌, refl, String, Option, none, true, false, not, ◌==◌, ◌||◌, is_blank, [],
  some,
}
use chuchu.Effect.{ok}
use chuchu.Outside.{Outside, DecimalLaws}
use chuchu.Httpx.Guard.{Header}
use chuchu.Property.{Property, status_valid, can_transition}
use chuchu.Property.Input.{UpdateInput, validate, validate_update}
use chuchu.Property.Validation.{is_amount, is_fee}
use chuchu.Property.Validation.Update.{breaks, IsValidUpdate_of_nil}
use chuchu.Property.Service.Refusals.{amount_value, fee_value}
use chuchu.App.Refused.{mount-updated}
use chuchu.Property.Service.{
  build, parse_fee, update, apply_update, assign_update, new_rent, new_fee, change_status,
  apply_status,
}
use chuchu.Property.Pgrepo
use chuchu.Property.Pgrepo.{PropertyModel, check_affected}
use chuchu.Property.Httpapi.Changes.{moved}
use chuchu.Property.Httpapi.{
  CreatePropertyRequest, UpdatePropertyRequest, to_update_input, update_property, to_create_input,
  to_api_property, create_property, change_property_status,
}
use chuchu.Api.{
  Json, json_property, ChangeStatusRequest, visit_create_property, visit_change_property_status,
  visit_update_property,
}
use chuchu.Api.Wrapper
use chuchu.Server.{RequestLine}
use chuchu.App.{Moment, api_route, Deps, Writers, new_handler}
use chuchu.App.Creates.{mount-created}
use chuchu.App.Moves.{mount-changed}
use chuchu.App.Duplicates.{create_valid_input}
use chuchu.App.Responses.{json_response}
use chuchu.App.Success.{sent-answer}

-- The amounts of a valid update can be read, unless the fee is white space.
module _ (o : Outside) (p : Property o) where
  new_rent_value :
      (given : Option String)
      → breaks (is_amount o) given ≡ false
      → (x : o.Decimal) × (new_rent o p given ≡ ok x)
  new_rent_value none h = (p.monthly_rent, refl)
  new_rent_value (some s) h = let (x, e) = amount_value o s (eq_true_of_not h) in (x, rw e refl)

  new_fee_value :
      (given : Option String)
      → breaks (is_fee o) given ≡ false
      → ((s : String) → given ≡ some s → (s == "") || not (is_blank s) ≡ true)
      → (x : o.Decimal) × (new_fee o p given ≡ ok x)
  new_fee_value none h plain = (p.management_fee, refl)
  new_fee_value (some s) h plain = fee_value o s (eq_true_of_not h) (plain s refl)

  apply_update_value :
      (now : o.Time) (input : UpdateInput)
      → validate_update o input ≡ []
      → ((s : String) → input.management_fee ≡ some s → (s == "") || not (is_blank s) ≡ true)
      → (q : Property o) × (q.id ≡ p.id) × (apply_update o now input p ≡ ok q)
  unfolding apply_update
  apply_update_value now input valid plain =
      let v = IsValidUpdate_of_nil o input valid in
      let (rent, er) = new_rent_value input.monthly_rent v.monthly_rent in
      let (fee, ef) = new_fee_value input.management_fee v.management_fee plain in
      (assign_update o now input p rent fee, refl, rw (er, ef) refl)

module _ (o : Outside) {S : Type 0} (d : Deps o S) (w : Writers o)
    (encodes : (b : Json o) → (text : String) × (w.encode b ≡ ok text)) (request_id : String)
    (r : RequestLine) (h : Header) (m : Moment o) (s : S) where
  -- When the body of a creation is valid, with a fee that is empty or not blank, and the database takes
  -- the `INSERT` of the one row that is built from it, with the new id and the amounts that its texts say,
  -- the service answers by 201 and a text; with an encoder that works, and decimals that do what is
  -- documented of them.
  pub creation_succeeds :
      DecimalLaws o
      → (body : CreatePropertyRequest)
      → let input = to_create_input body in
        let op = api_route (Wrapper.create_property (ok body)) in
        let ((calls, entry), t) = new_handler o d w request_id r h m op s in
        validate o input ≡ []
        → (input.management_fee == "") || not (is_blank input.management_fee) ≡ true
        → ((area rent fee : o.Decimal)
            → o.new_from_string body.area_ping ≡ ok area
            → o.new_from_string body.monthly_rent ≡ ok rent
            → parse_fee o input.management_fee ≡ ok fee
            → (d.db.insert (Pgrepo.to_model o (build o m.new_id m.now input area rent fee)) s).0
              ≡ ok tt)
        → (text : String) × (calls ≡ json_response 201 request_id h text)
  unfolding create_property Pgrepo.create visit_create_property
  creation_succeeds decimals body valid plain inserted =
      let input = to_create_input body in
      let op = Wrapper.create_property (ok body) in
      let (area, rent, fee, ra, rr, rf, run) =
        create_valid_input o (Pgrepo.repository o d.db) decimals m.new_id m.now input s valid
          plain in
      let p = build o m.new_id m.now input area rent fee in
      let (text, encoded) = encodes (json_property (to_api_property o p)) in
      (
        text,
        sent-answer o d w request_id r h m op s 201 text (
            rw
              (
                mount-created o d w request_id m body s,
                run,
                inserted area rent fee ra rr rf,
                encoded,
              )
              refl),
      )

  -- When the row that the query finds has a status from which the state machine leads to that of the body,
  -- and the `UPDATE` of the moved row changes one, the service answers by 200 and a text.
  move_succeeds :
      (id : o.Uuid) (body : ChangeStatusRequest) (row : PropertyModel o) (u : S)
      → let op = api_route (Wrapper.change_property_status (ok id) (ok body)) in
        let ((calls, entry), t) = new_handler o d w request_id r h m op s in
        d.db.select_by_id id s ≡ (ok row, u)
        → status_valid body.status ≡ true
        → can_transition row.status body.status ≡ true
        → (d.db.update_by_pk
            (Pgrepo.to_model o (moved o m.now body.status (Pgrepo.to_domain o row)))
            u).0
          ≡ ok (ok (pos 1))
        → (text : String) × (calls ≡ json_response 200 request_id h text)
  unfolding change_property_status change_status apply_status Pgrepo.get_by_id Pgrepo.update
      Pgrepo.to_domain Pgrepo.to_model check_affected visit_change_property_status
  move_succeeds id body row u found known allowed changes =
      let op = Wrapper.change_property_status (ok id) (ok body) in
      let q = moved o m.now body.status (Pgrepo.to_domain o row) in
      let (text, encoded) = encodes (json_property (to_api_property o q)) in
      (
        text,
        sent-answer o d w request_id r h m op s 200 text (
            rw (mount-changed o d w request_id m id body s, known, found, allowed, changes, encoded)
              refl),
      )

  -- When the body of an update is valid, with a fee that is empty or not blank if it is given, and the
  -- query finds the row and the `UPDATE` of the changed row changes one, the service answers by 200 and a text.
  update_succeeds :
      (id : o.Uuid) (body : UpdatePropertyRequest) (row : PropertyModel o) (u : S)
      → let input = to_update_input body in
        let op = api_route (Wrapper.update_property (ok id) (ok body)) in
        let ((calls, entry), t) = new_handler o d w request_id r h m op s in
        d.db.select_by_id id s ≡ (ok row, u)
        → validate_update o input ≡ []
        → ((fee : String)
            → input.management_fee ≡ some fee
            → (fee == "") || not (is_blank fee) ≡ true)
        → ((q : Property o)
            → apply_update o m.now input (Pgrepo.to_domain o row) ≡ ok q
            → (d.db.update_by_pk (Pgrepo.to_model o q) u).0 ≡ ok (ok (pos 1)))
        → (text : String) × (calls ≡ json_response 200 request_id h text)
  unfolding update_property update Pgrepo.get_by_id Pgrepo.update Pgrepo.to_domain Pgrepo.to_model
      check_affected visit_update_property
  update_succeeds id body row u found valid plain changes =
      let op = Wrapper.update_property (ok id) (ok body) in
      let (q, _, applied) =
        apply_update_value o (Pgrepo.to_domain o row) m.now (to_update_input body) valid plain in
      let (text, encoded) = encodes (json_property (to_api_property o q)) in
      (
        text,
        sent-answer o d w request_id r h m op s 200 text (
            rw
              (
                mount-updated o d w request_id m id s body,
                valid,
                found,
                applied,
                changes q applied,
                encoded,
              )
              refl),
      )

  -- When the query finds the row, the service answers a valid update, with a fee that is empty or not blank
  -- if it is given, by 200 and a text, and also a change to a valid status to which the state machine leads
  -- from that of the row; where the `UPDATE` of the row as the one request changes it, and that of the row
  -- as the other does, each change one row, and with an encoder that works.
  pub changes_succeed :
      (id : o.Uuid) (row : PropertyModel o) (u : S) (change : UpdatePropertyRequest)
      (target : ChangeStatusRequest)
      → let input = to_update_input change in
        let update_route = api_route (Wrapper.update_property (ok id) (ok change)) in
        let status_route = api_route (Wrapper.change_property_status (ok id) (ok target)) in
        let calls = (new_handler o d w request_id r h m update_route s).0.0 in
        let calls' = (new_handler o d w request_id r h m status_route s).0.0 in
        d.db.select_by_id id s ≡ (ok row, u)
        → ((q : Property o)
            → apply_update o m.now input (Pgrepo.to_domain o row) ≡ ok q
            → (d.db.update_by_pk (Pgrepo.to_model o q) u).0 ≡ ok (ok (pos 1)))
        → (d.db.update_by_pk
            (Pgrepo.to_model o (moved o m.now target.status (Pgrepo.to_domain o row)))
            u).0
          ≡ ok (ok (pos 1))
        → validate_update o input ≡ []
        → ((fee : String)
            → input.management_fee ≡ some fee
            → (fee == "") || not (is_blank fee) ≡ true)
        → status_valid target.status ≡ true
        → can_transition row.status target.status ≡ true
        → ((text : String) × (calls ≡ json_response 200 request_id h text))
          × ((text : String) × (calls' ≡ json_response 200 request_id h text))
  changes_succeed id row u change target found changes moves valid plain known allowed = (
    update_succeeds id change row u found valid plain changes,
    move_succeeds id target row u found known allowed moves,
  )
