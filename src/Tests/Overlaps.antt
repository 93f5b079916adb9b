-- ===== src/Tests/Overlaps.antt =====
-- Overlapping requests on the small world: two creations under one address, and two changes of the
-- first property that both read it before either of them writes.
use chuchu.Prelude.{ℕ, List, [], ◌∷◌, map, pos, none, some}
use chuchu.Property.Input.{CreateInput, UpdateInput}
use chuchu.Property.Pgrepo.{repository}
use chuchu.Property.Pgrepo.Refines.{rows}
use chuchu.Property.Pgrepo.Indexes.{overlapping-IsKept}
use chuchu.Property.Service.Runs.{Op, create_op, update_op, status_op, AllSound}
use chuchu.Property.Service.Overlap.{calling, run_schedule}
use chuchu.Property.Service.Overlap.Kept.{IsAddressed}
use chuchu.Property.Service.Overlap.Turns.{IsKept}
use chuchu.Tests.World.{world, find, memory, memory-IsDb, world-DecimalLaws}
use chuchu.Tests.Indexed.{memory-IsIndexed}

abbrev flat_input : CreateInput
flat_input = record {
  city = "台北市";
  district = "大安區";
  street_address = "和平東路 1 號";
  floor = "3";
  room_no = "A";
  layout = "WHOLE_UNIT";
  area_ping = "28.5";
  monthly_rent = "25000";
  management_fee = "";
  deposit_months = pos 2;
  rental_mode = "MANAGED";
  landlord_name = "";
  landlord_phone = "";
}

abbrev new_owner : UpdateInput
new_owner = record {
  monthly_rent = none;
  management_fee = none;
  deposit_months = none;
  layout = none;
  landlord_name = some "王";
  landlord_phone = none;
}

abbrev four_ops : List (Op world)
four_ops =
    create_op 8 1 flat_input
    ∷ update_op 2 8 new_owner
    ∷ status_op 3 8 "OCCUPIED"
    ∷ create_op 9 4 flat_input
    ∷ []

abbrev schedule : List ℕ
schedule = 0 ∷ 1 ∷ 2 ∷ 3 ∷ 2 ∷ 1 ∷ []

empty-AllSound : AllSound world (rows world find) []
unfolding AllSound rows
empty-AllSound j p h = cc

empty-IsAddressed : IsAddressed world (rows world find) []
unfolding rows
empty-IsAddressed = record { distinct = λ j k p q h. cc }

overlapping-IsKept_example :
    IsKept world
      (rows world find)
      []
      (run_schedule world (repository world memory) schedule (map calling four_ops) []).1
overlapping-IsKept_example =
    overlapping-IsKept world find memory memory-IsIndexed world-DecimalLaws memory-IsDb four_ops
      schedule [] empty-AllSound empty-IsAddressed
