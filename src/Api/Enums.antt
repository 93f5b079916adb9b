-- ===== src/Api/Enums.antt =====
-- The enumerations of api/api.gen.go, against those of internal/property and the reports of
-- internal/health. Each `Valid` is a switch, in the order of the generated constants.
use chuchu.Prelude.{
  Bool, true, false, String, ◌≡◌, refl, ◌==◌, ◌||◌, arith, if◌then◌else◌, List, [], ◌∷◌, none, inl,
  inr, Bool-cases,
}
use chuchu.Health.{CheckResult, collect, check}
use chuchu.Line
use chuchu.Line.{Event, follow}
use chuchu.Property.{
  status_valid, layout_valid, rental_mode_valid, vacant, occupied, renovating, delisted, whole_unit,
  independent_suite, shared_suite, single_room, managed, master_lease,
}

-- A switch that answers true in each of its cases, and false by default
abbrev case : Bool → Bool → Bool
case here rest = if here then true else rest

unfoldable pub change_status_request_status_valid : String → Bool
change_status_request_status_valid e =
    case (e == "DELISTED")
      (case (e == "OCCUPIED") (case (e == "RENOVATING") (case (e == "VACANT") false)))

unfoldable pub create_property_request_layout_valid : String → Bool
create_property_request_layout_valid e =
    case (e == "INDEPENDENT_SUITE")
      (case (e == "SHARED_SUITE") (case (e == "SINGLE_ROOM") (case (e == "WHOLE_UNIT") false)))

unfoldable pub create_property_request_rental_mode_valid : String → Bool
create_property_request_rental_mode_valid e =
    case (e == "MANAGED") (case (e == "MASTER_LEASE") false)

unfoldable pub health_report_status_valid : String → Bool
health_report_status_valid e = case (e == "degraded") (case (e == "ok") false)

unfoldable pub property_layout_valid : String → Bool
property_layout_valid e =
    case (e == "INDEPENDENT_SUITE")
      (case (e == "SHARED_SUITE") (case (e == "SINGLE_ROOM") (case (e == "WHOLE_UNIT") false)))

unfoldable pub property_rental_mode_valid : String → Bool
property_rental_mode_valid e = case (e == "MANAGED") (case (e == "MASTER_LEASE") false)

unfoldable pub property_status_valid : String → Bool
property_status_valid e =
    case (e == "DELISTED")
      (case (e == "OCCUPIED") (case (e == "RENOVATING") (case (e == "VACANT") false)))

unfoldable pub update_property_request_layout_valid : String → Bool
update_property_request_layout_valid e =
    case (e == "INDEPENDENT_SUITE")
      (case (e == "SHARED_SUITE") (case (e == "SINGLE_ROOM") (case (e == "WHOLE_UNIT") false)))

unfoldable pub list_properties_params_status_valid : String → Bool
list_properties_params_status_valid e =
    case (e == "DELISTED")
      (case (e == "OCCUPIED") (case (e == "RENOVATING") (case (e == "VACANT") false)))

unfoldable pub list_properties_params_rental_mode_valid : String → Bool
list_properties_params_rental_mode_valid e =
    case (e == "MANAGED") (case (e == "MASTER_LEASE") false)

-- `CHECK (… IN (…))` of db/20260819120000_create_properties.tx.up.sql and of
-- db/20260826120000_create_line_users.tx.up.sql
abbrev one_of : String → List String → Bool
one_of s [] = false
one_of s (x ∷ xs) = s == x || one_of s xs

unfoldable pub properties_rental_mode_check : String → Bool
properties_rental_mode_check s = one_of s ("MASTER_LEASE" ∷ "MANAGED" ∷ [])

unfoldable pub properties_status_check : String → Bool
properties_status_check s = one_of s ("VACANT" ∷ "OCCUPIED" ∷ "RENOVATING" ∷ "DELISTED" ∷ [])

unfoldable pub properties_layout_check : String → Bool
properties_layout_check s =
    one_of s ("WHOLE_UNIT" ∷ "INDEPENDENT_SUITE" ∷ "SHARED_SUITE" ∷ "SINGLE_ROOM" ∷ [])

unfoldable pub line_users_status_check : String → Bool
line_users_status_check s = one_of s ("FOLLOWING" ∷ "BLOCKED" ∷ [])

-- The generated order of four cases, and that of `Valid` in internal/property
sorted_cases : (d o r v : Bool) → case d (case o (case r (case v false))) ≡ v || o || r || d
sorted_cases d o r v = ground arith

sorted_layouts : (i s r w : Bool) → case i (case s (case r (case w false))) ≡ w || i || s || r
sorted_layouts i s r w = ground arith

sorted_modes : (m l : Bool) → case m (case l false) ≡ l || m
sorted_modes m l = ground arith

in_four : (a b c d : Bool) → a || (b || (c || (d || false))) ≡ a || b || c || d
in_four a b c d = ground arith

in_two : (a b : Bool) → a || (b || false) ≡ a || b
in_two a b = ground arith

reported : (rs : List CheckResult) → health_report_status_valid (check rs).status ≡ true
unfolding health_report_status_valid check
reported rs = elim (Bool-cases (collect rs (λ k. none) true).1) [
  | inl fine ↦ rw fine refl
  | inr bad ↦ rw bad refl
]

followed : (event : Event) → line_users_status_check (Line.status event) ≡ true
unfolding line_users_status_check Line.status
followed event = elim (Bool-cases (event.type == follow)) [
  | inl here ↦ rw here refl
  | inr other ↦ rw other refl
]

-- A text is a status to the three generated `Valid`, to `Valid` of internal/property and to the
-- constraint of the table alike, and so with the layouts and the rental modes; every health report has a
-- status that its generated `Valid` accepts, and every event of LINE one that the table accepts.
pub valid-status_valid :
    (e : String) (rs : List CheckResult) (event : Event)
    → (change_status_request_status_valid e ≡ status_valid e)
      × (property_status_valid e ≡ status_valid e)
      × (list_properties_params_status_valid e ≡ status_valid e)
      × (properties_status_check e ≡ status_valid e)
      × (create_property_request_layout_valid e ≡ layout_valid e)
      × (update_property_request_layout_valid e ≡ layout_valid e)
      × (property_layout_valid e ≡ layout_valid e)
      × (properties_layout_check e ≡ layout_valid e)
      × (create_property_request_rental_mode_valid e ≡ rental_mode_valid e)
      × (list_properties_params_rental_mode_valid e ≡ rental_mode_valid e)
      × (property_rental_mode_valid e ≡ rental_mode_valid e)
      × (properties_rental_mode_check e ≡ rental_mode_valid e)
      × (health_report_status_valid (check rs).status ≡ true)
      × (line_users_status_check (Line.status event) ≡ true)
unfolding status_valid layout_valid rental_mode_valid change_status_request_status_valid
    property_status_valid list_properties_params_status_valid properties_status_check
    create_property_request_layout_valid update_property_request_layout_valid property_layout_valid
    properties_layout_check create_property_request_rental_mode_valid
    list_properties_params_rental_mode_valid property_rental_mode_valid properties_rental_mode_check
valid-status_valid e rs event =
    let status =
      sorted_cases (e == "DELISTED") (e == "OCCUPIED") (e == "RENOVATING") (e == "VACANT") in
    let layout =
      sorted_layouts (e == "INDEPENDENT_SUITE") (e == "SHARED_SUITE") (e == "SINGLE_ROOM")
        (e == "WHOLE_UNIT") in
    let mode = sorted_modes (e == "MANAGED") (e == "MASTER_LEASE") in
    (
      status,
      status,
      status,
      in_four (e == vacant) (e == occupied) (e == renovating) (e == delisted),
      layout,
      layout,
      layout,
      in_four (e == whole_unit) (e == independent_suite) (e == shared_suite) (e == single_room),
      mode,
      mode,
      mode,
      in_two (e == master_lease) (e == managed),
      reported rs,
      followed event,
    )
