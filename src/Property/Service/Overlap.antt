-- ===== src/Property/Service/Overlap.antt =====
-- Requests to internal/property that overlap: each is a goroutine that makes one call of the repository
-- at a time, and the calls of several of them come in any order. `Update` and `ChangeStatus` make two,
-- `GetByID` and `repo.Update`, between which others may run.
pub mod Kept
pub mod Turns
pub mod Schedules
pub mod Alone
use chuchu.Prelude.{ℕ, zero, suc, not, List, [], ◌∷◌, if◌then◌else◌, is_empty}
use chuchu.Effect.{Result, ok, err, Exec}
use chuchu.Outside.{Outside}
use chuchu.Property.{Status, Property}
use chuchu.Property.Input.{UpdateInput, validate_update}
use chuchu.Property.Service.{Repository, apply_update, apply_status, finish_update, finish_status}
use chuchu.Property.Service.Runs.{Op, create_op, update_op, status_op, get_op, list_op, run_op}

-- What a goroutine that has read a property is going to do to it.
pub data Change (o : Outside) : Type 0 where
  update_change : o.Time → UpdateInput → Change o
  status_change : o.Time → Status → Change o

-- Where a goroutine stands: in front of the call, between its two calls of the repository, at its end.
pub data Request (o : Outside) : Type 0 where
  calling : Op o → Request o
  holding : Change o → Property o → Request o
  finished : Request o

abbrev pub apply : (o : Outside) → Change o → Property o → Result (Property o)
apply o (update_change now input) p = apply_update o now input p
apply o (status_change now target) p = apply_status o now target p

module _ (o : Outside) {S : Type 0} (repo : Repository o S) where
  -- `GetByID`, with what the goroutine makes of its result
  abbrev pub after_read : Change o → Result (Property o) × S → Request o × S
  after_read c (ok p, t) = (holding c p, t)
  after_read c (err e, t) = (finished, t)

  -- What comes after it
  abbrev pub finish : Change o → Property o → Exec S (Property o)
  finish (update_change now input) p = finish_update o repo now input p
  finish (status_change now target) p = finish_status o repo now target p

  -- The goroutine runs until its next call of the repository has returned.
  unfoldable pub advance : Request o → S → Request o × S
  advance (calling (create_op id now input)) s =
      (finished, run_op o repo (create_op id now input) s)
  advance (calling (update_op now id input)) s =
      if not (is_empty (validate_update o input))
      then (finished, s)
      else after_read (update_change now input) (repo.get_by_id id s)
  advance (calling (status_op now id target)) s =
      after_read (status_change now target) (repo.get_by_id id s)
  advance (calling (get_op id)) s = (finished, run_op o repo (get_op id) s)
  advance (calling (list_op f)) s = (finished, run_op o repo (list_op f) s)
  advance (holding c p) s = (finished, (finish c p s).1)
  advance finished s = (finished, s)

  -- The goroutine with this number is the next that runs.
  unfoldable pub advance_at : ℕ → List (Request o) → S → List (Request o) × S
  advance_at i [] s = ([], s)
  advance_at zero (q ∷ qs) s = let (q', t) = advance q s in (q' ∷ qs, t)
  advance_at (suc i) (q ∷ qs) s = let (qs', t) = advance_at i qs s in (q ∷ qs', t)

  -- The goroutines run in the order of a schedule.
  unfoldable pub run_schedule : List ℕ → List (Request o) → S → List (Request o) × S
  run_schedule [] qs s = (qs, s)
  run_schedule (i ∷ is) qs s = let (qs', t) = advance_at i qs s in run_schedule is qs' t
