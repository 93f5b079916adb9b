-- ===== src/Config.antt =====
-- internal/config/config.go: `Load`. Viper is not part of the sources: `Settings` has the four calls
-- of it whose results the code looks at, after the file and the prefix were set for a name.
pub mod Required
use chuchu.Prelude.{
  ℤ, ◌⊎◌, inl, inr, Bool, not, String, List, [], ◌∷◌, Option, none, some, if◌then◌else◌,
}
use chuchu.Apperr.{GoError}

pub record ServerConfig : Type 0 where
  pub port : ℤ
  pub debug : Bool
  pub shutdown_timeout : ℤ

pub record PostgresConfig : Type 0 where
  pub dsn : String
  pub max_open_conns : ℤ

pub record RedisConfig : Type 0 where
  pub addr : String
  pub password : String
  pub db : ℤ

pub record LogConfig : Type 0 where
  pub level : String

pub record LineConfig : Type 0 where
  pub channel_secret : String

pub record Config : Type 0 where
  pub server : ServerConfig
  pub postgres : PostgresConfig
  pub redis : RedisConfig
  pub log : LogConfig
  pub line : LineConfig

-- What `Load` returns: the four wrapped errors, by what they wrap or name, and the configuration.
pub data Loaded : Type 0 where
  loaded : Config → Loaded
  bind_failed : String → GoError → Loaded
  read_failed : String → GoError → Loaded
  missing_key : String → Loaded
  unmarshal_failed : GoError → Loaded

-- `none` is the nil error.
pub record Settings : Type 0 where
  pub bind_env : String → Option GoError
  pub read_in_config : Option GoError
  pub is_set : String → Bool
  pub unmarshal : GoError ⊎ Config

abbrev pub required_keys : List String
required_keys = "server.port" ∷ "postgres.dsn" ∷ "redis.addr" ∷ "line.channel_secret" ∷ []

abbrev pub known_keys : List String
known_keys =
    "server.port" ∷ "server.debug" ∷ "server.shutdown_timeout" ∷ "postgres.dsn"
    ∷ "postgres.max_open_conns" ∷ "redis.addr" ∷ "redis.password" ∷ "redis.db" ∷ "log.level"
    ∷ "line.channel_secret" ∷ []

abbrev pub on_unmarshal : GoError ⊎ Config → Loaded
on_unmarshal (inl e) = unmarshal_failed e
on_unmarshal (inr cfg) = loaded cfg

module _ (v : Settings) where
  -- The loop over the required keys, and what follows it
  abbrev pub check_required : List String → Loaded
  check_required [] = on_unmarshal v.unmarshal
  check_required (key ∷ keys) =
      let rest = check_required keys in if not (v.is_set key) then missing_key key else rest

  abbrev pub read_then : String → Option GoError → Loaded
  read_then name none = check_required required_keys
  read_then name (some e) = read_failed name e

  abbrev pub bind_or : String → Option GoError → Loaded → Loaded
  bind_or key none rest = rest
  bind_or key (some e) rest = bind_failed key e

  -- The loop over the known keys, and what follows it
  abbrev pub bind_known : String → List String → Loaded
  bind_known name [] = read_then name v.read_in_config
  bind_known name (key ∷ keys) =
      let rest = bind_known name keys in bind_or key (v.bind_env key) rest

  unfoldable pub load : String → Loaded
  load name = bind_known name known_keys
