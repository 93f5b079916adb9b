-- ===== src/Migrations.antt =====
-- db/migrate.go: the one place where bun's migrator is made. What the code calls of bun is `BunMigrate`;
-- the embedded files are part of it.
use chuchu.Prelude.{Bool, true, String, List, [], ◌∷◌}
use chuchu.Apperr.{wrapped}
use chuchu.Clients.{Pool}
use chuchu.Effect.{Result, ok, Exec, map_err, and_then}

-- `migrate.Migrator` over the state of the database. `Migrate` and `Rollback` return a group, of which
-- the program asks `IsZero`.
pub record Migrator (S : Type 0) : Type 0 where
  pub init : Exec S (Unit {0})
  pub lock : Exec S (Unit {0})
  pub unlock : Exec S (Unit {0})
  pub migrate : Exec S Bool
  pub rollback : Exec S Bool
  pub migrations_with_status : Exec S (Unit {0})
  pub create_tx_sql_migrations : String → Exec S (Unit {0})

-- The option of `migrate.NewMigrator` that the code gives
pub data MigratorOption : Type 0 where
  with_mark_applied_on_success : Bool → MigratorOption

-- `migrate.NewMigrations` with a directory, `Discover` on the embedded files, and `migrate.NewMigrator`
pub record BunMigrate (S : Type 0) : Type 1 where
  pub Files : Type 0
  pub new_migrations : String → Files
  pub discover : Files → Result Files
  pub make_migrator : Pool → Files → List MigratorOption → Migrator S

module _ {S : Type 0} (bun : BunMigrate S) where
  -- `Migrations`
  unfoldable pub migrations : Result bun.Files
  migrations =
      map_err (wrapped "探索 db/ 底下的 migration 檔案失敗: ") (bun.discover (bun.new_migrations "db"))

  -- `NewMigrator`
  unfoldable pub new_migrator : Pool → Result (Migrator S)
  unfolding migrations
  new_migrator pool =
      and_then migrations
        λ found. ok (bun.make_migrator pool found (with_mark_applied_on_success true ∷ []))
