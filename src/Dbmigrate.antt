-- ===== src/Dbmigrate.antt =====
-- cmd/dbmigrate/main.go: the program that runs migrations. The migrator is that of
-- db/migrate.go; what is printed is left out.
pub mod Locks
pub mod Runs
use chuchu.Prelude.{ℕ, Bool, true, false, not, any, String, List, [], ◌∷◌, ◌==◌, if◌then◌else◌}
use chuchu.Clients.{Pool, postgres_open}
use chuchu.Config.{Loaded, loaded, Settings, load}
use chuchu.Migrations.{Migrator, BunMigrate, new_migrator}
use chuchu.Effect.{Result, ok, err, Exec}

abbrev pub subcommands : List String
subcommands = "init" ∷ "migrate" ∷ "rollback" ∷ "status" ∷ "unlock" ∷ "create_sql" ∷ []

unfoldable pub is_valid_subcommand : String → Bool
is_valid_subcommand name = any (λ s. s == name) subcommands

-- `if err != nil { …; return 1 }` and `return 0`
abbrev pub exit_code : {A : Type 0} → Result A → ℕ
exit_code (ok _) = 0
exit_code (err e) = 1

module _ {S : Type 0} (migrator : Migrator S) where
  -- `return 0` or `return 1` after a call, with the deferred `Unlock`, whose error is printed only
  abbrev pub under_lock : Result (Unit {0}) → Exec S Bool → S → ℕ × S
  under_lock (err e) call s = (1, s)
  under_lock (ok _) call s = let (r, t) = call s in (exit_code r, (migrator.unlock t).1)

  unfoldable pub run_init : S → ℕ × S
  run_init s = let (r, t) = migrator.init s in (exit_code r, t)

  unfoldable pub run_migrate : S → ℕ × S
  run_migrate s = let (r, t) = migrator.lock s in under_lock r migrator.migrate t

  unfoldable pub run_rollback : S → ℕ × S
  run_rollback s = let (r, t) = migrator.lock s in under_lock r migrator.rollback t

  unfoldable pub run_status : S → ℕ × S
  run_status s = let (r, t) = migrator.migrations_with_status s in (exit_code r, t)

  unfoldable pub run_unlock : S → ℕ × S
  run_unlock s = let (r, t) = migrator.unlock s in (exit_code r, t)

  unfoldable pub run_create_sql : List String → S → ℕ × S
  run_create_sql [] s = (1, s)
  run_create_sql (name ∷ rest) s =
      let (r, t) = migrator.create_tx_sql_migrations name s in (exit_code r, t)

  -- the `switch` of `run`
  unfoldable pub run_subcommand : String → List String → S → ℕ × S
  run_subcommand name args s =
      if name == "init"
      then run_init s
      else if name == "migrate"
      then run_migrate s
      else if name == "rollback"
      then run_rollback s
      else if name == "status"
      then run_status s
      else if name == "unlock"
      then run_unlock s
      else if name == "create_sql"
      then run_create_sql args s
      else (1, s)

-- What the flags, viper and bun make of the command line: `fs.Parse` with the value of `--config` and
-- what is left of the words.
pub record Tools (S : Type 0) : Type 1 where
  pub parse_flags : String → List String → Result (String × List String)
  pub settings : Settings
  pub bun : BunMigrate S

module _ {S : Type 0} (tools : Tools S) where
  abbrev pub with_migrator : String → List String → Result (Migrator S) → S → ℕ × S
  with_migrator name args (err e) s = (1, s)
  with_migrator name args (ok migrator) s = run_subcommand migrator name args s

  abbrev pub with_connection : String → List String → Result Pool → S → ℕ × S
  with_connection name args (err e) s = (1, s)
  with_connection name args (ok pool) s = with_migrator name args (new_migrator tools.bun pool) s

  abbrev pub with_config : String → List String → Loaded → S → ℕ × S
  with_config name args (loaded cfg) s = with_connection name args (postgres_open cfg.postgres) s
  with_config name args failed s = (1, s)

  abbrev pub with_flags : String → Result (String × List String) → S → ℕ × S
  with_flags name (err e) s = (1, s)
  with_flags name (ok (config_name, args)) s =
      if config_name == ""
      then (1, s)
      else with_config name args (load tools.settings config_name) s

  -- `run`, from the words of the command line
  unfoldable pub run : List String → S → ℕ × S
  run [] s = (1, s)
  run (name ∷ args) s =
      if not (is_valid_subcommand name)
      then (1, s)
      else with_flags name (tools.parse_flags name args) s
