-- ===== src/Dbmigrate/Locks.antt =====
-- The migration lock and the exit code of cmd/dbmigrate.
use chuchu.Prelude.{◌≡◌, refl, Bool, true, false}
use chuchu.Apperr.{GoError}
use chuchu.Prelude.{◌∙◌}
use chuchu.Effect.{Result, ok, err, Exec}
use chuchu.Migrations.{Migrator}
use chuchu.Dbmigrate.{under_lock, run_migrate, run_rollback}

module _ {S : Type 0} (held : S → Bool) where
  -- What is documented of the migrator: `Lock` succeeds only where no one holds the lock, and takes it;
  -- `Unlock` gives it back.
  pub record IsLocking (migrator : Migrator S) : Type 0 where
    pub lock_ok :
        (s : S) → (migrator.lock s).0 ≡ ok tt → (held s ≡ false) × (held (migrator.lock s).1 ≡ true)
    pub lock_fails :
        (s : S) (e : GoError) → (migrator.lock s).0 ≡ err e → held (migrator.lock s).1 ≡ held s
    pub unlock_ok : (s : S) → (migrator.unlock s).0 ≡ ok tt → held (migrator.unlock s).1 ≡ false

  module _ (migrator : Migrator S) (law : IsLocking migrator) (s : S) where
    kept :
        (call : Exec S Bool) (r : Result (Unit {0}))
        → (migrator.lock s).0 ≡ r
        → held s ≡ true
        → let t = under_lock migrator r call (migrator.lock s).1 in (t.0 ≡ 1) × (held t.1 ≡ true)
    kept call (ok _) e h = cc (h, (law.lock_ok s e).0)
    kept call (err x) e h = (refl, law.lock_fails s x e ∙ h)

    -- While another process holds the lock, `migrate` and `rollback` exit with 1 and leave it held: the
    -- lock of the other one is not given back.
    pub other_lock_kept :
        held s ≡ true
        → ((run_migrate migrator s).0 ≡ 1)
          × (held (run_migrate migrator s).1 ≡ true)
          × ((run_rollback migrator s).0 ≡ 1)
          × (held (run_rollback migrator s).1 ≡ true)
    unfolding run_migrate run_rollback
    other_lock_kept h =
        let (code, still) = kept migrator.migrate (migrator.lock s).0 refl h in
        let (code', still') = kept migrator.rollback (migrator.lock s).0 refl h in
        (code, still, code', still')

    released :
        (call : Exec S Bool) (r : Result (Unit {0}))
        → (migrator.lock s).0 ≡ r
        → held s ≡ false
        → ((t : S) → (migrator.unlock t).0 ≡ ok tt)
        → held (under_lock migrator r call (migrator.lock s).1).1 ≡ false
    released call (ok _) e h works = law.unlock_ok _ (works _)
    released call (err x) e h works = law.lock_fails s x e ∙ h

    -- From a free lock, and where `Unlock` works, `migrate` and `rollback` end with a free lock, also
    -- when a migration fails.
    pub own_lock_released :
        held s ≡ false
        → ((t : S) → (migrator.unlock t).0 ≡ ok tt)
        → (held (run_migrate migrator s).1 ≡ false) × (held (run_rollback migrator s).1 ≡ false)
    unfolding run_migrate run_rollback
    own_lock_released h works = (
      released migrator.migrate (migrator.lock s).0 refl h works,
      released migrator.rollback (migrator.lock s).0 refl h works,
    )
