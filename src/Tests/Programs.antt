-- ===== src/Tests/Programs.antt =====
-- The migration program and the configuration at small inputs.
use chuchu.Prelude.{pos, ◌≡◌, ◌↔◌, refl, inr, Bool, true, false, not, [], ◌∷◌, none, ◌==◌}
use chuchu.Apperr.{GoError, foreign}
use chuchu.Effect.{Result, ok, err, ok_injective}
use chuchu.Migrations.{Migrator, BunMigrate, new_migrator, migrations}
use chuchu.Dbmigrate.{Tools, run}
use chuchu.Dbmigrate.Runs.{IsNeutral, run-IsFree}
use mathlib.Core.Path.{subst}
use chuchu.Dbmigrate.Locks.{IsLocking}
use chuchu.Config.{Config, Settings, load, loaded}
use chuchu.Config.Required.{IsComplete, load-eq_loaded_iff}

abbrev take_lock : Bool → Result (Unit {0}) × Bool
take_lock true = (err (foreign "migrations table is already locked"), true)
take_lock false = (ok tt, true)

-- The state is whether the lock is held.
abbrev toy : Migrator Bool
toy = record {
  init = λ s. (ok tt, s);
  lock = take_lock;
  unlock = λ s. (ok tt, false);
  migrate = λ s. (err (foreign "syntax error"), s);
  rollback = λ s. (ok true, s);
  migrations_with_status = λ s. (ok tt, s);
  create_tx_sql_migrations = λ name s. (ok tt, s);
}

take_lock_ok : (s : Bool) → (take_lock s).0 ≡ ok tt → (s ≡ false) × ((take_lock s).1 ≡ true)
take_lock_ok true h = cc
take_lock_ok false h = (refl, refl)

take_lock_fails : (s : Bool) (e : GoError) → (take_lock s).0 ≡ err e → (take_lock s).1 ≡ s
take_lock_fails true e h = refl
take_lock_fails false e h = cc

toy-IsLocking : IsLocking (λ s. s) toy
toy-IsLocking = record {
  lock_ok = take_lock_ok;
  lock_fails = take_lock_fails;
  unlock_ok = λ s h. refl;
}

abbrev config_test : Config
config_test = record {
  server = record { port = pos 8080; debug = false; shutdown_timeout = pos 5 };
  postgres = record { dsn = "postgres://localhost"; max_open_conns = pos 4 };
  redis = record { addr = "localhost:6379"; password = ""; db = pos 0 };
  log = record { level = "info" };
  line = record { channel_secret = "s" };
}

abbrev settings : Settings
settings = record {
  bind_env = λ key. none;
  read_in_config = none;
  is_set = λ key. not (key == "line.channel_secret");
  unmarshal = inr config_test;
}

load-eq_loaded_iff_example :
    (load settings "test" ≡ loaded config_test) ↔ IsComplete settings config_test
load-eq_loaded_iff_example = load-eq_loaded_iff settings "test" config_test

toy-IsNeutral : IsNeutral (λ s. s) toy
toy-IsNeutral = record {
  init_keeps = λ s. refl;
  status_keeps = λ s. refl;
  create_keeps = λ name s. refl;
  unlock_works = λ s. refl;
}

abbrev bun_toy : BunMigrate Bool
bun_toy = record {
  Files = Unit {0};
  new_migrations = λ directory. tt;
  discover = λ files. ok files;
  make_migrator = λ pool files options. toy;
}

abbrev tools : Tools Bool
tools = record {
  parse_flags = λ name args. ok ("test", args);
  settings = record settings { is_set = λ key. true };
  bun = bun_toy;
}

run-IsFree_example : (run tools ("migrate" ∷ []) false).1 ≡ false
unfolding new_migrator migrations
run-IsFree_example =
    run-IsFree (λ s. s) tools (λ p m h. subst (IsLocking (λ s. s)) (ok_injective h) toy-IsLocking)
      (λ p m h. subst (IsNeutral (λ s. s)) (ok_injective h) toy-IsNeutral) false refl
      ("migrate" ∷ [])
