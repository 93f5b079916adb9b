-- ===== src/Dbmigrate/Runs.antt =====
-- The migration lock over a whole run of cmd/dbmigrate, from the words of the command line.
use chuchu.Prelude.{
  ◌≡◌, ℕ, refl, ◌∙◌, Bool, true, false, ◌==◌, not, String, List, [], ◌∷◌, if◌then◌else◌,
}
use chuchu.Effect.{Result, ok, err}
use chuchu.Clients.{Pool, postgres_open}
use chuchu.Config.{Loaded, loaded, bind_failed, read_failed, missing_key, unmarshal_failed, load}
use chuchu.Migrations.{Migrator, new_migrator}
use chuchu.Dbmigrate.{
  Tools, run_init, run_status, run_unlock, run_create_sql, run_subcommand, is_valid_subcommand,
  with_migrator, with_connection, with_config, with_flags, run,
}
use chuchu.Dbmigrate.Locks.{IsLocking, own_lock_released}

-- What a run keeps, of the databases after it, if every subcommand keeps it.
module _ {S : Type 0} (P : S → Type 0) where
  abbrev pub Ends : ℕ × S → Type 0
  Ends end = P end.1

  pub if-Ends : (b : Bool) (x y : ℕ × S) → Ends x → Ends y → Ends (if b then x else y)
  if-Ends true x y h k = h
  if-Ends false x y h k = k

  module _ (tools : Tools S) (s : S) (start : P s)
      (subcommand : (pool : Pool) (m : Migrator S)
        → new_migrator tools.bun pool ≡ ok m
        → (name : String) (args : List String) → Ends (run_subcommand m name args s)) where
    migrator-Ends :
        (name : String) (args : List String) (pool : Pool) (r : Result (Migrator S))
        → new_migrator tools.bun pool ≡ r
        → Ends (with_migrator tools name args r s)
    migrator-Ends name args pool (err e) h = start
    migrator-Ends name args pool (ok m) h = subcommand pool m h name args

    connection-Ends :
        (name : String) (args : List String) (r : Result Pool)
        → Ends (with_connection tools name args r s)
    connection-Ends name args (err e) = start
    connection-Ends name args (ok pool) =
        migrator-Ends name args pool (new_migrator tools.bun pool) refl

    config-Ends :
        (name : String) (args : List String) (l : Loaded) → Ends (with_config tools name args l s)
    config-Ends name args (loaded cfg) = connection-Ends name args (postgres_open cfg.postgres)
    config-Ends name args (bind_failed key e) = start
    config-Ends name args (read_failed key e) = start
    config-Ends name args (missing_key key) = start
    config-Ends name args (unmarshal_failed e) = start

    flags-Ends :
        (name : String) (r : Result (String × List String)) → Ends (with_flags tools name r s)
    flags-Ends name (err e) = start
    flags-Ends name (ok (config_name, args)) =
        if-Ends (config_name == "") _ _ start
          (config-Ends name args (load tools.settings config_name))

    pub run-Ends : (args : List String) → P (run tools args s).1
    unfolding run
    run-Ends [] = start
    run-Ends (name ∷ args) =
        if-Ends (not (is_valid_subcommand name)) _ _ start
          (flags-Ends name (tools.parse_flags name args))

module _ {S : Type 0} (held : S → Bool) where
  -- What is documented besides: the other calls leave the lock alone, and `Unlock` works.
  pub record IsNeutral (migrator : Migrator S) : Type 0 where
    pub init_keeps : (s : S) → held (migrator.init s).1 ≡ held s
    pub status_keeps : (s : S) → held (migrator.migrations_with_status s).1 ≡ held s
    pub create_keeps :
        (name : String) (s : S) → held (migrator.create_tx_sql_migrations name s).1 ≡ held s
    pub unlock_works : (s : S) → (migrator.unlock s).0 ≡ ok tt

  abbrev IsFree : ℕ × S → Type 0
  IsFree end = held end.1 ≡ false

  module _ (migrator : Migrator S) (law : IsLocking held migrator) (neutral : IsNeutral migrator)
      (s : S) (free : held s ≡ false) where
    create_sql-IsFree : (args : List String) → IsFree (run_create_sql migrator args s)
    unfolding run_create_sql
    create_sql-IsFree [] = free
    create_sql-IsFree (name ∷ rest) = neutral.create_keeps name s ∙ free

    subcommand-IsFree :
        (name : String) (args : List String) → IsFree (run_subcommand migrator name args s)
    unfolding run_subcommand run_init run_status run_unlock
    subcommand-IsFree name args =
        let (migrated, rolled_back) =
          own_lock_released held migrator law s free neutral.unlock_works in
        if-Ends (λ t. held t ≡ false) (name == "init") _ _ (neutral.init_keeps s ∙ free)
          (if-Ends (λ t. held t ≡ false) (name == "migrate") _ _ migrated
            (if-Ends (λ t. held t ≡ false) (name == "rollback") _ _ rolled_back
              (if-Ends (λ t. held t ≡ false) (name == "status") _ _ (neutral.status_keeps s ∙ free)
                (if-Ends (λ t. held t ≡ false) (name == "unlock") _ _
                  (law.unlock_ok s (neutral.unlock_works s))
                  (if-Ends (λ t. held t ≡ false) (name == "create_sql") _ _ (create_sql-IsFree args)
                    free)))))

  module _ (tools : Tools S)
      (law : (p : Pool) (m : Migrator S) → new_migrator tools.bun p ≡ ok m → IsLocking held m)
      (neutral : (p : Pool) (m : Migrator S) → new_migrator tools.bun p ≡ ok m → IsNeutral m)
      (s : S) (free : held s ≡ false) where
    -- Whatever the words of the command line are, a run that starts from a free lock ends with a free
    -- lock, also when the program refuses the words, or a migration fails.
    pub run-IsFree : (args : List String) → held (run tools args s).1 ≡ false
    run-IsFree =
        run-Ends (λ t. held t ≡ false) tools s free
          λ p m h name args. subcommand-IsFree m (law p m h) (neutral p m h) s free name args
