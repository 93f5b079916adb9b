-- ===== src/Property.antt =====
-- internal/property: the rental property and its rules. This file has the types of property.go and
-- the state machine of status.go.
pub mod StateMachine
pub mod Input
pub mod Validation
pub mod Service
pub mod Httpapi
pub mod Pgrepo
use mathlib.Core.Option
use chuchu.Prelude.{ℤ, Bool, true, false, ◌||◌, String, List, [], ◌∷◌, Option, ◌==◌, lookup}
use chuchu.Outside.{Outside}

-- `RentalMode`, `Status` and `Layout` are Go strings, which may hold any text.
abbrev pub RentalMode : Type 0
RentalMode = String

abbrev pub Status : Type 0
Status = String

abbrev pub Layout : Type 0
Layout = String

abbrev pub master_lease : RentalMode
master_lease = "MASTER_LEASE"

abbrev pub managed : RentalMode
managed = "MANAGED"

-- `RentalMode.Valid`
unfoldable pub rental_mode_valid : RentalMode → Bool
rental_mode_valid m = m == master_lease || m == managed

abbrev pub vacant : Status
vacant = "VACANT"

abbrev pub occupied : Status
occupied = "OCCUPIED"

abbrev pub renovating : Status
renovating = "RENOVATING"

abbrev pub delisted : Status
delisted = "DELISTED"

-- `Status.Valid`
unfoldable pub status_valid : Status → Bool
status_valid s = s == vacant || s == occupied || s == renovating || s == delisted

abbrev pub whole_unit : Layout
whole_unit = "WHOLE_UNIT"

abbrev pub independent_suite : Layout
independent_suite = "INDEPENDENT_SUITE"

abbrev pub shared_suite : Layout
shared_suite = "SHARED_SUITE"

abbrev pub single_room : Layout
single_room = "SINGLE_ROOM"

-- `Layout.Valid`
unfoldable pub layout_valid : Layout → Bool
layout_valid l = l == whole_unit || l == independent_suite || l == shared_suite || l == single_room

pub record Property (o : Outside) : Type 0 where
  pub id : o.Uuid
  pub city : String
  pub district : String
  pub street_address : String
  pub floor : String
  pub room_no : String
  pub layout : Layout
  pub area_ping : o.Decimal
  pub monthly_rent : o.Decimal
  pub management_fee : o.Decimal
  pub deposit_months : ℤ
  pub rental_mode : RentalMode
  pub status : Status
  pub landlord_name : String
  pub landlord_phone : String
  pub created_at : o.Time
  pub updated_at : o.Time

abbrev transitions : List (Status × List (Status × Bool))
transitions =
    (vacant, (occupied, true) ∷ (renovating, true) ∷ (delisted, true) ∷ [])
    ∷ (occupied, (vacant, true) ∷ [])
    ∷ (renovating, (vacant, true) ∷ (delisted, true) ∷ [])
    ∷ (delisted, (vacant, true) ∷ [])
    ∷ []

-- `CanTransition`: a missing key of either map reads as the zero value, a nil map or `false`.
unfoldable pub can_transition : Status → Status → Bool
can_transition from to =
    Option.get_or (lookup to (Option.get_or (lookup from transitions) [])) false
