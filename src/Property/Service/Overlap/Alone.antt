-- ===== src/Property/Service/Overlap/Alone.antt =====
-- A goroutine of internal/property that runs without others, against the method that it runs.
use chuchu.Prelude.{◌≡◌, refl, not, Bool, true, false, if◌then◌else◌, is_empty}
use chuchu.Apperr.{to_go, GoError, validation}
use chuchu.Effect.{Result, ok, err, continue, raise, Exec, ◌>>=◌}
use chuchu.Outside.{Outside}
use chuchu.Property.{Property}
use chuchu.Property.Input.{validate_update}
use chuchu.Property.Service.{Repository, update, change_status}
use chuchu.Property.Service.Runs.{Op, create_op, update_op, status_op, get_op, list_op, run_op}
use chuchu.Property.Service.Overlap.{
  Change, update_change, status_change, Request, calling, finished, after_read, finish, advance,
}

module _ (o : Outside) {S : Type 0} (repo : Repository o S) where
  abbrev pub twice : Request o → S → Request o × S
  twice q s = let (q', t) = advance o repo q s in advance o repo q' t

  after_read-finish :
      (c : Change o) (r : Result (Property o)) (t : S)
      → let (q, u) = after_read o repo c (r, t) in
        advance o repo q u ≡ (finished, (continue r (finish o repo c) t).1)
  unfolding advance
  after_read-finish c (ok p) t = refl
  after_read-finish c (err e) t = refl

  -- The guard in front of both calls
  guarded-finish :
      (refused : Bool) (e : GoError) (k : Request o × S) (m : Exec S (Property o)) (s : S)
      → advance o repo k.0 k.1 ≡ (finished, (m s).1)
      → let (q, u) = if refused then (finished, s) else k in
        advance o repo q u ≡ (finished, ((if refused then raise e else m) s).1)
  unfolding advance
  guarded-finish true e k m s h = refl
  guarded-finish false e k m s h = h

  -- A request that is alone has ended after two turns, and has done what its method does.
  pub twice-run_op : (op : Op o) (s : S) → twice (calling op) s ≡ (finished, run_op o repo op s)
  unfolding advance run_op update change_status
  twice-run_op (create_op id now input) s = refl
  twice-run_op (get_op id) s = refl
  twice-run_op (list_op f) s = refl
  twice-run_op (status_op now id target) s =
      after_read-finish (status_change now target) (repo.get_by_id id s).0 (repo.get_by_id id s).1
  twice-run_op (update_op now id input) s =
      let (r, t) = repo.get_by_id id s in
      let change = update_change now input in
      guarded-finish (not (is_empty (validate_update o input)))
        (to_go (validation (validate_update o input))) (after_read o repo change (r, t))
        (do p ← repo.get_by_id id; finish o repo change p) s (after_read-finish change r t)
