-- ===== src/Service/Exits.antt =====
-- What `run` of cmd/api/main.go guarantees on every branch: the exit code, and that what it opens is
-- closed again.
use chuchu.Prelude.{◌≡◌, ◌↔◌, refl, ap, sym, ◌∙◌, String, List, [], ◌∷◌, ◌++◌, Option, none, some}
use chuchu.Apperr.{GoError}
use chuchu.Effect.{Result, ok, err}
use chuchu.Config.{
  Config, Loaded, loaded, bind_failed, read_failed, missing_key, unmarshal_failed, load,
}
use chuchu.Clients.{Pool, RedisOptions, postgres_open, redis_open, postgres_ping}
use chuchu.Service.{
  Event, prints, makes_logger, logs_info, logs_warn, logs_error, catches_signals, stops_signals,
  opens_pool, closes_pool, opens_redis, closes_redis, serves, Platform, Process, does, deferred,
  warned, ended, with_redis, with_pool, run, on_loaded,
}

pub data Resource : Type 0 where
  signals pool redis : Resource

-- The resources that are held, the last one first, after an event: a close is of the last one that was
-- opened, and the server runs while all three are held.
abbrev pub held_after : Event → List Resource → Option (List Resource)
held_after catches_signals held = some (signals ∷ held)
held_after (opens_pool p) held = some (pool ∷ held)
held_after (opens_redis c) held = some (redis ∷ held)
held_after stops_signals (signals ∷ held) = some held
held_after (closes_pool p) (pool ∷ held) = some held
held_after (closes_redis c) (redis ∷ held) = some held
held_after (serves s) (redis ∷ pool ∷ signals ∷ []) = some (redis ∷ pool ∷ signals ∷ [])
held_after (prints e) held = some held
held_after (makes_logger level) held = some held
held_after (logs_info msg) held = some held
held_after (logs_warn msg e) held = some held
held_after (logs_error msg e) held = some held
held_after _ _ = none

abbrev pub held_after_all : List Event → Option (List Resource) → Option (List Resource)
held_after_all [] held = held
held_after_all (e ∷ es) none = none
held_after_all (e ∷ es) (some held) = held_after_all es (held_after e held)

held-none : (es : List Event) → held_after_all es none ≡ none
held-none [] = refl
held-none (e ∷ es) = refl

held-append :
    (es fs : List Event) (held : Option (List Resource))
    → held_after_all (es ++ fs) held ≡ held_after_all fs (held_after_all es held)
held-append [] fs held = refl
held-append (e ∷ es) fs none = sym (held-none fs)
held-append (e ∷ es) fs (some held) = held-append es fs (held_after e held)

-- The process leaves what is held as it found it.
abbrev Keeps : List Resource → Process → Type 0
Keeps held p = held_after_all p.1 (some held) ≡ some held

warned-Keeps :
    (msg : String) (failed : Option GoError) (held : List Resource) (p : Process)
    → Keeps held p
    → Keeps held (does (warned msg failed) p)
warned-Keeps msg none held p k = k
warned-Keeps msg (some e) held p k = k

deferred-Keeps :
    (e : Event) (held rest : List Resource) (p : Process)
    → Keeps held p
    → held_after e held ≡ some rest
    → held_after_all (deferred e p).1 (some held) ≡ some rest
deferred-Keeps e held rest p k h = rw (held-append p.1 (e ∷ []) (some held), k) h

module _ (w : Platform) (cfg : Config) where
  ended-Keeps : (result : Option GoError) (held : List Resource) → Keeps held (ended result)
  ended-Keeps none held = refl
  ended-Keeps (some e) held = refl

  redis-Keeps : (r : Result RedisOptions) → Keeps (pool ∷ signals ∷ []) (with_redis w cfg r)
  unfolding with_redis
  redis-Keeps (err e) = refl
  redis-Keeps (ok client) =
      let held = redis ∷ pool ∷ signals ∷ [] in
      let served = does (serves cfg.server ∷ []) (ended (w.server_run cfg.server)) in
      let msg : String = "啟動時無法連線 redis，服務仍會啟動（/healthz 會回報 degraded）" in
      deferred-Keeps (closes_redis client) held (pool ∷ signals ∷ [])
        (does (warned msg (w.ping_redis client)) served)
        (warned-Keeps msg (w.ping_redis client) held served
          (ended-Keeps (w.server_run cfg.server) held))
        refl

  pool-Keeps : (r : Result Pool) → Keeps (signals ∷ []) (with_pool w cfg r)
  unfolding with_pool
  pool-Keeps (err e) = refl
  pool-Keeps (ok db) =
      let held = pool ∷ signals ∷ [] in
      let served = with_redis w cfg (redis_open cfg.redis) in
      let msg : String = "啟動時無法連線 postgres，服務仍會啟動（/healthz 會回報 degraded）" in
      deferred-Keeps (closes_pool db) held (signals ∷ [])
        (does (warned msg (postgres_ping (w.ping_pool db))) served)
        (warned-Keeps msg (postgres_ping (w.ping_pool db)) held served
          (redis-Keeps (redis_open cfg.redis)))
        refl

loaded-Keeps : (w : Platform) (l : Loaded) → Keeps [] (on_loaded w l)
loaded-Keeps w (loaded cfg) =
    deferred-Keeps stops_signals (signals ∷ []) [] (with_pool w cfg (postgres_open cfg.postgres))
      (pool-Keeps w cfg (postgres_open cfg.postgres)) refl
loaded-Keeps w (bind_failed key e) = refl
loaded-Keeps w (read_failed name e) = refl
loaded-Keeps w (missing_key key) = refl
loaded-Keeps w (unmarshal_failed e) = refl

-- However the start, the pings and the server end, every resource that was opened is closed, in the
-- reverse order, and the server runs only while all of them are held.
pub run-Keeps :
    (w : Platform) (config_name : String) → held_after_all (run w config_name).1 (some []) ≡ some []
unfolding run
run-Keeps w config_name = loaded-Keeps w (load w.settings config_name)

ended-zero : (result : Option GoError) → (ended result).0 ≡ 0 → result ≡ none
ended-zero none h = refl
ended-zero (some e) h = cc

abbrev config_or : Config → Loaded → Config
config_or d (loaded cfg) = cfg
config_or d _ = d

loaded-zero :
    (w : Platform) (l : Loaded)
    → ((on_loaded w l).0 ≡ 0)
      ↔ ((cfg : Config) × (l ≡ loaded cfg) × (w.server_run cfg.server ≡ none))
unfolding with_pool with_redis postgres_open redis_open
loaded-zero w (loaded cfg) = (
  λ h. (cfg, refl, ended-zero (w.server_run cfg.server) h),
  λ c.
      let same : cfg ≡ c.0 = ap (config_or cfg) c.1 in
      let done : w.server_run cfg.server ≡ none =
        ap (λ (x : Config). w.server_run x.server) same ∙ c.2 in
      ap (λ r. (ended r).0) done,
)
loaded-zero w (bind_failed key e) = (λ h. cc, λ c. cc c.1)
loaded-zero w (read_failed name e) = (λ h. cc, λ c. cc c.1)
loaded-zero w (missing_key key) = (λ h. cc, λ c. cc c.1)
loaded-zero w (unmarshal_failed e) = (λ h. cc, λ c. cc c.1)

-- The process exits by 0 exactly if the configuration is loaded and the server ends without an error:
-- databases that cannot be reached at the start do not count.
pub run-eq_zero :
    (w : Platform) (config_name : String)
    → ((run w config_name).0 ≡ 0) ↔ (
        (cfg : Config) × (load w.settings config_name ≡ loaded cfg)
        × (w.server_run cfg.server ≡ none))
unfolding run
run-eq_zero w config_name = loaded-zero w (load w.settings config_name)
