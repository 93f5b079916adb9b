-- ===== src/Clients.antt =====
-- internal/platform/postgres and internal/platform/redisclient: what the two clients are opened with.
use chuchu.Prelude.{ℤ, pos, ltb_ℤ, String, Option, none, some, if◌then◌else◌}
use chuchu.Apperr.{GoError, wrapped}
use chuchu.Effect.{Result, ok}
use chuchu.Config.{PostgresConfig, RedisConfig}

-- `*bun.DB`: what `SetMaxOpenConns` was called with, if it was
pub record Pool : Type 0 where
  pub dsn : String
  pub max_open_conns : Option ℤ

-- `redis.Options`
pub record RedisOptions : Type 0 where
  pub addr : String
  pub password : String
  pub db : ℤ

-- `postgres.Open`
unfoldable pub postgres_open : PostgresConfig → Result Pool
postgres_open cfg = ok (record {
  dsn = cfg.dsn;
  max_open_conns = if ltb_ℤ (pos 0) cfg.max_open_conns then some cfg.max_open_conns else none;
})

-- `postgres.Ping`
abbrev pub postgres_ping : Option GoError → Option GoError
postgres_ping none = none
postgres_ping (some e) = some (wrapped "postgres ping 失敗: " e)

-- `redisclient.Open`
unfoldable pub redis_open : RedisConfig → Result RedisOptions
redis_open cfg = ok (record { addr = cfg.addr; password = cfg.password; db = cfg.db })
