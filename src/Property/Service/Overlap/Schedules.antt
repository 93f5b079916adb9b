-- ===== src/Property/Service/Overlap/Schedules.antt =====
-- Overlapping requests to internal/property, in every order of their calls of the repository.
use chuchu.Property.Service.Overlap.Turns.{IsReady, IsReady-Keeps, IsKept, advance-IsKept}
use chuchu.Prelude.{ℕ, zero, suc, List, [], ◌∷◌, map, All, Option}
use chuchu.Outside.{Outside, DecimalLaws}
use chuchu.Property.{Property}
use chuchu.Property.Service.{Repository}
use chuchu.Property.Service.Contract.{IsRepository}
use chuchu.Property.Service.Runs.{Op, AllSound}
use chuchu.Property.Service.Overlap.{Request, calling, advance_at, run_schedule}
use chuchu.Property.Service.Overlap.Kept.{IsAddressed, IsUnique, Keeps, Keeps-refl, Keeps-trans}

module _ (o : Outside) {S : Type 0} (rows : S → o.Uuid → Option (Property o)) (d : DecimalLaws o)
    (repo : Repository o S) (law : IsRepository o rows repo) (unique : IsUnique o rows repo) where
  All-Keeps :
      {s t : S} (qs : List (Request o))
      → Keeps o rows s t
      → All (IsReady o rows s) qs
      → All (IsReady o rows t) qs
  All-Keeps [] k r = tt
  All-Keeps (q ∷ qs) k r = (IsReady-Keeps o rows q k r.0, All-Keeps qs k r.1)

  advance_at-IsKept :
      (i : ℕ) (qs : List (Request o)) (s : S)
      → AllSound o rows s
      → IsAddressed o rows s
      → All (IsReady o rows s) qs
      → let (qs', t) = advance_at o repo i qs s in IsKept o rows s t × All (IsReady o rows t) qs'
  unfolding advance_at
  advance_at-IsKept i [] s h a r =
      (record { sound = h; addressed = a; keeps = Keeps-refl o rows s }, tt)
  advance_at-IsKept zero (q ∷ qs) s h a r =
      let (kept, ready) = advance-IsKept o rows d repo law unique s h a q r.0 in
      (kept, (ready, All-Keeps qs kept.keeps r.1))
  advance_at-IsKept (suc i) (q ∷ qs) s h a r =
      let (kept, ready) = advance_at-IsKept i qs s h a r.1 in
      (kept, (IsReady-Keeps o rows q kept.keeps r.0, ready))

  schedule-IsKept :
      (order : List ℕ) (qs : List (Request o)) (s : S)
      → AllSound o rows s
      → IsAddressed o rows s
      → All (IsReady o rows s) qs
      → IsKept o rows s (run_schedule o repo order qs s).1
  unfolding run_schedule
  schedule-IsKept [] qs s h a r = record { sound = h; addressed = a; keeps = Keeps-refl o rows s }
  schedule-IsKept (i ∷ order) qs s h a r =
      let (first, ready) = advance_at-IsKept i qs s h a r in
      let (qs', t) = advance_at o repo i qs s in
      let rest = schedule-IsKept order qs' t first.sound first.addressed ready in
      record {
        sound = rest.sound;
        addressed = rest.addressed;
        keeps = Keeps-trans o rows first.keeps rest.keeps;
      }

  calling-IsReady : (ops : List (Op o)) (s : S) → All (IsReady o rows s) (map calling ops)
  calling-IsReady [] s = tt
  calling-IsReady (op ∷ ops) s = (tt, calling-IsReady ops s)

  -- In whatever order requests to the service make their calls of the repository, all properties stay
  -- sound, no two share an address, and none is lost or changes its identity.
  pub run_schedule-IsKept :
      (ops : List (Op o)) (order : List ℕ) (s : S)
      → AllSound o rows s
      → IsAddressed o rows s
      → IsKept o rows s (run_schedule o repo order (map calling ops) s).1
  run_schedule-IsKept ops order s h a =
      schedule-IsKept order (map calling ops) s h a (calling-IsReady ops s)
