-- ===== src/Config/Required.antt =====
-- When `Load` of internal/config/config.go returns a configuration.
use chuchu.Prelude.{
  ◌≡◌, ◌↔◌, refl, ap, ◌∙◌, true, Bool-cases, inl, inr, ◌⊎◌, Option, none, some, String, List, [],
  ◌∷◌, All,
}
use chuchu.Apperr.{GoError}
use chuchu.Config.{
  Config, Settings, Loaded, loaded, required_keys, known_keys, on_unmarshal, check_required,
  read_then, bind_or, bind_known, load,
}

module _ (v : Settings) where
  -- Each of the ten keys is bound, the file is read, the four keys without a default are set, and
  -- viper makes this configuration of them.
  abbrev pub IsComplete : Config → Type 0
  IsComplete c =
      All (λ k. v.bind_env k ≡ none)
        ("server.port" ∷ "server.debug" ∷ "server.shutdown_timeout" ∷ "postgres.dsn"
          ∷ "postgres.max_open_conns" ∷ "redis.addr" ∷ "redis.password" ∷ "redis.db" ∷ "log.level"
          ∷ "line.channel_secret" ∷ [])
      × (v.read_in_config ≡ none)
      × (v.is_set "server.port" ≡ true)
      × (v.is_set "postgres.dsn" ≡ true)
      × (v.is_set "redis.addr" ≡ true)
      × (v.is_set "line.channel_secret" ≡ true)
      × (v.unmarshal ≡ inr c)

  unmarshal_ok : (r : GoError ⊎ Config) {c : Config} → on_unmarshal r ≡ loaded c → r ≡ inr c
  unmarshal_ok (inl e) h = cc
  unmarshal_ok (inr c) h = cc

  check_required_ok :
      (keys : List String) {c : Config}
      → check_required v keys ≡ loaded c
      → All (λ k. v.is_set k ≡ true) keys × (v.unmarshal ≡ inr c)
  check_required_ok [] h = (tt, unmarshal_ok v.unmarshal h)
  check_required_ok (key ∷ keys) h = elim (Bool-cases (v.is_set key)) [
    | inl given ↦ let (more, e) = check_required_ok keys (rw given at h) in ((given, more), e)
    | inr absent ↦ cc (rw absent at h)
  ]

  read_then_ok :
      (name : String) (r : Option GoError) {c : Config}
      → read_then v name r ≡ loaded c
      → (r ≡ none) × (check_required v required_keys ≡ loaded c)
  read_then_ok name none h = (refl, h)
  read_then_ok name (some e) h = cc

  bind_or_ok :
      (key : String) (r : Option GoError) (rest : Loaded) {c : Config}
      → bind_or v key r rest ≡ loaded c
      → (r ≡ none) × (rest ≡ loaded c)
  bind_or_ok key none rest h = (refl, h)
  bind_or_ok key (some e) rest h = cc

  bind_known_ok :
      (name : String) (keys : List String) {c : Config}
      → bind_known v name keys ≡ loaded c
      → All (λ k. v.bind_env k ≡ none) keys × (read_then v name v.read_in_config ≡ loaded c)
  bind_known_ok name [] h = (tt, h)
  bind_known_ok name (key ∷ keys) h =
      let (bound, h') = bind_or_ok key (v.bind_env key) (bind_known v name keys) h in
      let (more, e) = bind_known_ok name keys h' in ((bound, more), e)

  load_sound : (name : String) (c : Config) → load v name ≡ loaded c → IsComplete c
  unfolding load
  load_sound name c h =
      let (bound, h') = bind_known_ok name known_keys h in
      let (was_read, h'') = read_then_ok name v.read_in_config h' in
      let ((port, (dsn, (addr, (secret, _)))), e) = check_required_ok required_keys h'' in
      (bound, was_read, port, dsn, addr, secret, e)

  bind_known-All :
      (name : String) (keys : List String)
      → All (λ k. v.bind_env k ≡ none) keys
      → bind_known v name keys ≡ read_then v name v.read_in_config
  bind_known-All name [] h = refl
  bind_known-All name (key ∷ keys) h = rw h.0 (bind_known-All name keys h.1)

  check_required-All :
      (keys : List String)
      → All (λ k. v.is_set k ≡ true) keys
      → check_required v keys ≡ on_unmarshal v.unmarshal
  check_required-All [] h = refl
  check_required-All (key ∷ keys) h = rw h.0 (check_required-All keys h.1)

  load_complete : (name : String) (c : Config) → IsComplete c → load v name ≡ loaded c
  unfolding load
  load_complete name c (bound, was_read, port, dsn, addr, secret, e) =
      bind_known-All name known_keys bound
      ∙ ap (read_then v name) was_read
      ∙ check_required-All required_keys (port, (dsn, (addr, (secret, tt))))
      ∙ ap on_unmarshal e

  -- `Load` returns a configuration exactly when each of the ten keys was bound to its environment variable,
  -- the file was read and the port, the DSN, the address of Redis and the channel secret are set, and then
  -- it is what viper makes of them.
  pub load-eq_loaded_iff : (name : String) (c : Config) → (load v name ≡ loaded c) ↔ IsComplete c
  load-eq_loaded_iff name c = (load_sound name c, load_complete name c)
