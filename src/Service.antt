-- ===== src/Service.antt =====
-- cmd/api/main.go: `run`, the exit code and what the process does, in order. The pings and what `server.Run` returns are arguments (its steps
-- are in Server/Run), as are viper's answers. Log lines have their constant text and the error.
pub mod Exits
use chuchu.Prelude.{
  ℕ, ℤ, pos, ltb_ℤ, String, List, [], ◌∷◌, ◌++◌, Option, none, some, if◌then◌else◌,
}
use chuchu.Apperr.{GoError, wrapped}
use chuchu.Effect.{Result, ok, err}
use chuchu.Clients.{Pool, RedisOptions, postgres_open, postgres_ping, redis_open}
use chuchu.Logging.{Level, parse_level}
use chuchu.Config.{
  ServerConfig, PostgresConfig, RedisConfig, Config, Loaded, loaded, Settings, load,
}

pub data Event : Type 0 where
  prints : Loaded → Event
  logs_info : String → Event
  logs_warn logs_error : String → GoError → Event
  makes_logger : Level → Event
  catches_signals stops_signals : Event
  opens_pool closes_pool : Pool → Event
  opens_redis closes_redis : RedisOptions → Event
  serves : ServerConfig → Event

pub record Platform : Type 0 where
  pub settings : Settings
  pub lower_trimmed : String → String
  pub ping_pool : Pool → Option GoError
  pub ping_redis : RedisOptions → Option GoError
  pub server_run : ServerConfig → Option GoError

-- The exit code, and what was done.
abbrev pub Process : Type 0
Process = ℕ × List Event

abbrev pub does : List Event → Process → Process
does es p = (p.0, es ++ p.1)

-- `defer`, in front of the rest of the function
abbrev pub deferred : Event → Process → Process
deferred e p = (p.0, p.1 ++ e ∷ [])

-- A ping that fails is only logged.
abbrev pub warned : String → Option GoError → List Event
warned msg none = []
warned msg (some e) = logs_warn msg e ∷ []

abbrev pub ended : Option GoError → Process
ended none = (0, [])
ended (some e) = (1, logs_error "http server 非預期結束" e ∷ [])

module _ (w : Platform) (cfg : Config) where
  unfoldable pub with_redis : Result RedisOptions → Process
  with_redis (err e) = (1, logs_error "建立 redis client 失敗" e ∷ [])
  with_redis (ok client) = does (opens_redis client ∷ []) (
      deferred (closes_redis client) (
        does (warned "啟動時無法連線 redis，服務仍會啟動（/healthz 會回報 degraded）" (w.ping_redis client))
          (does (serves cfg.server ∷ []) (ended (w.server_run cfg.server)))))

  unfoldable pub with_pool : Result Pool → Process
  with_pool (err e) = (1, logs_error "建立 postgres 連線池失敗" e ∷ [])
  with_pool (ok pool) = does (opens_pool pool ∷ []) (
      deferred (closes_pool pool) (
        does
          (warned "啟動時無法連線 postgres，服務仍會啟動（/healthz 會回報 degraded）"
            (postgres_ping (w.ping_pool pool)))
          (with_redis (redis_open cfg.redis))))

abbrev pub on_loaded : Platform → Loaded → Process
on_loaded w (loaded cfg) =
    does
      (makes_logger (parse_level w.lower_trimmed cfg.log.level)
        ∷ logs_info "service config loaded"
        ∷ catches_signals
        ∷ [])
      (deferred stops_signals (with_pool w cfg (postgres_open cfg.postgres)))
on_loaded w failed = (1, prints failed ∷ [])

unfoldable pub run : Platform → String → Process
run w config_name = on_loaded w (load w.settings config_name)
