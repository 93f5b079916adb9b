-- ===== src/Server/Run/Ends.antt =====
-- What the steps of `Run` in internal/server/run.go guarantee in every order: what it returns, that it
-- ends, and that it leaves no goroutine behind.
use chuchu.Prelude.{
  ℕ, suc, ◌+◌, ◌≤◌, ◌≡◌, refl, ◌⊎◌, inl, inr, Bool, true, false, Option, none, some, if◌then◌else◌,
  arith, Bool-cases,
}
use chuchu.Apperr.{GoError}
use chuchu.Server.Run.{
  Server, listening, sending, finished, Caller, selecting, shutting_down, awaiting, returned, State,
  initial, report, Step, listen_closes, sends, receives, sees_done, shutdown_succeeds,
  shutdown_fails, receives_last, Happens, cancels, listen_fails, Runs, stays, steps, events,
}

-- How many steps are left at most.
abbrev server_weight : Server → ℕ
server_weight listening = 2
server_weight (sending e) = 1
server_weight (finished e) = 0

abbrev caller_weight : Caller → ℕ
caller_weight selecting = 3
caller_weight shutting_down = 2
caller_weight awaiting = 1
caller_weight (returned r) = 0

abbrev weight : State → ℕ
weight s = server_weight s.server + caller_weight s.caller + (if s.cancelled then 0 else 1)

abbrev IsSome : {A : Type 0} → Option A → Type 0
IsSome none = ⊥
IsSome (some a) = Unit

-- Nothing is left for anyone to do: `Run` has returned, and its goroutine has ended.
abbrev pub IsEnd : State → Type 0
IsEnd s =
    ((r : Option GoError) × (s.caller ≡ returned r)) × ((e : GoError) × (s.server ≡ finished e))

-- The server serves, and nobody has asked it to stop.
abbrev pub IsServing : State → Type 0
IsServing s = (s.server ≡ listening) × (s.caller ≡ selecting) × (s.cancelled ≡ false)

module _ (server_closed : GoError) (is_closed : GoError → Bool) where
  -- What the channel holds before the last receive.
  abbrev Held : Server → Option (Option GoError) → Type 0
  Held listening ch = ch ≡ none
  Held (sending e) ch = ch ≡ none
  Held (finished e) ch = ch ≡ some (report is_closed e)

  abbrev Received : Server → Option (Option GoError) → Option GoError → Type 0
  Received listening ch r = ⊥
  Received (sending e) ch r = ⊥
  Received (finished e) ch r = (ch ≡ none) × (r ≡ report is_closed e)

  -- The invariant of the two.
  abbrev Shape : Server → Caller → Option (Option GoError) → Bool → Type 0
  Shape v selecting ch d = Held v ch
  Shape v shutting_down ch d = Held v ch × (d ≡ true)
  Shape v awaiting ch d = Held v ch × (d ≡ true)
  Shape v (returned r) ch d = Received v ch r ⊎ (Held v ch × (d ≡ true) × IsSome r)

  abbrev IsSound : State → Type 0
  IsSound s = Shape s.server s.caller s.serve_err_ch s.closing

  Shape-sending :
      (e : GoError) (ch : Option (Option GoError)) (c : Caller) (d : Bool)
      → Shape listening c ch d
      → Shape (sending e) c ch d
  Shape-sending e ch selecting d p = p
  Shape-sending e ch shutting_down d p = p
  Shape-sending e ch awaiting d p = p
  Shape-sending e ch (returned r) d (inl p) = absurd p
  Shape-sending e ch (returned r) d (inr p) = inr p

  Shape-finished :
      (e : GoError) (c : Caller) (d : Bool)
      → Shape (sending e) c none d
      → Shape (finished e) c (some (report is_closed e)) d
  Shape-finished e selecting d p = refl
  Shape-finished e shutting_down d p = (refl, p.1)
  Shape-finished e awaiting d p = (refl, p.1)
  Shape-finished e (returned r) d (inl p) = absurd p
  Shape-finished e (returned r) d (inr p) = inr (refl, p.1, p.2)

  Held-Received : (v : Server) (r : Option GoError) → Held v (some r) → Received v none r
  Held-Received listening r p = cc
  Held-Received (sending e) r p = cc
  Held-Received (finished e) r p = (refl, cc)

  Step-IsSound : {s t : State} → Step server_closed is_closed s t → IsSound s → IsSound t
  Step-IsSound (listen_closes {c} {ch}) p = Shape-sending server_closed ch c true p
  Step-IsSound (sends {c} {b} {d} e) p = Shape-finished e c d p
  Step-IsSound (receives {v} r) p = inl (Held-Received v r p)
  Step-IsSound sees_done p = (p, refl)
  Step-IsSound shutdown_succeeds p = p
  Step-IsSound (shutdown_fails e) p = inr (p.0, p.1, tt)
  Step-IsSound (receives_last {v} r) p = inl (Held-Received v r p.0)

  Happens-IsSound : {s t : State} → Happens server_closed is_closed s t → IsSound s → IsSound t
  Happens-IsSound cancels p = p
  Happens-IsSound (listen_fails {c} {ch} {b} {d} e) p = Shape-sending e ch c d p

  Runs-IsSound : {s t : State} {n : ℕ} → Runs server_closed is_closed s n t → IsSound s → IsSound t
  Runs-IsSound stays p = p
  Runs-IsSound (steps st rs) p = Runs-IsSound rs (Step-IsSound st p)
  Runs-IsSound (events h rs) p = Runs-IsSound rs (Happens-IsSound h p)

  Step-weight : {s t : State} → Step server_closed is_closed s t → suc (weight t) ≤ weight s
  Step-weight listen_closes = omega arith
  Step-weight (sends e) = omega arith
  Step-weight (receives r) = omega arith
  Step-weight sees_done = omega arith
  Step-weight shutdown_succeeds = omega arith
  Step-weight (shutdown_fails e) = omega arith
  Step-weight (receives_last r) = omega arith

  Happens-weight : {s t : State} → Happens server_closed is_closed s t → suc (weight t) ≤ weight s
  Happens-weight cancels = omega arith
  Happens-weight (listen_fails e) = omega arith

  Runs-weight : {s t : State} {n : ℕ} → Runs server_closed is_closed s n t → n + weight t ≤ weight s
  Runs-weight stays = omega arith
  Runs-weight (steps st rs) = omega (arith, Step-weight st, Runs-weight rs)
  Runs-weight (events h rs) = omega (arith, Happens-weight h, Runs-weight rs)

  -- How a call of `Run` may have ended: the goroutine, whether `Shutdown` was called, and the result.
  pub data Outcome : Server → Bool → Option GoError → Type 0 where
    closed_by_shutdown : {d : Bool} (e : GoError) → is_closed e ≡ true → Outcome (finished e) d none
    failed_by_itself :
        {d : Bool} (e : GoError) → is_closed e ≡ false → Outcome (finished e) d (some e)
    shutdown_failed : {v : Server} (e : GoError) → Outcome v true (some e)

  report-Outcome : (e : GoError) (d : Bool) → Outcome (finished e) d (report is_closed e)
  unfolding report
  report-Outcome e d = elim (Bool-cases (is_closed e)) [
    | inl closed ↦ rw closed (closed_by_shutdown e closed)
    | inr failed ↦ rw failed (failed_by_itself e failed)
  ]

  Shape-Outcome :
      (v : Server) (ch : Option (Option GoError)) (d : Bool) (r : Option GoError)
      → Shape v (returned r) ch d
      → Outcome v d r
  Shape-Outcome listening ch d r (inl p) = absurd p
  Shape-Outcome (sending e) ch d r (inl p) = absurd p
  Shape-Outcome (finished e) ch d r (inl p) = rw p.1 (report-Outcome e d)
  Shape-Outcome v ch d none (inr p) = absurd p.2
  Shape-Outcome v ch d (some e) (inr p) = rw p.1 (shutdown_failed e)

  -- `Run` returns nil only after its goroutine got `http.ErrServerClosed`, and otherwise the error
  -- that `ListenAndServe` failed by, or an error after `Shutdown` was called.
  pub Runs-Outcome :
      {n : ℕ} {s : State} {r : Option GoError}
      → Runs server_closed is_closed initial n s
      → s.caller ≡ returned r
      → Outcome s.server s.closing r
  Runs-Outcome {n} {s} {r} rs h =
      let sound : IsSound s = Runs-IsSound rs refl in
      Shape-Outcome s.server s.serve_err_ch s.closing r (rw h at sound)

  -- There is a next step.
  abbrev pub CanStep : State → Type 0
  CanStep s = (t : State) × Step server_closed is_closed s t

  closing-CanStep :
      (c : Caller) (ch : Option (Option GoError)) (b d : Bool)
      → d ≡ true
      → CanStep
          (record { server = listening; caller = c; serve_err_ch = ch; cancelled = b; closing = d })
  closing-CanStep c ch b true h = (_, listen_closes)
  closing-CanStep c ch b false h = cc

  sending-CanStep :
      (e : GoError) (c : Caller) (ch : Option (Option GoError)) (b d : Bool)
      → ch ≡ none
      → CanStep
          (record { server = sending e; caller = c; serve_err_ch = ch; cancelled = b; closing = d })
  sending-CanStep e c none b d h = (_, sends e)
  sending-CanStep e c (some r) b d h = cc

  progress :
      (v : Server) (c : Caller) (ch : Option (Option GoError)) (b d : Bool)
      → Shape v c ch d
      → let s : State = record {
        server = v;
        caller = c;
        serve_err_ch = ch;
        cancelled = b;
        closing = d;
      } in
        IsEnd s ⊎ IsServing s ⊎ CanStep s
  progress v shutting_down ch b d p = inr (inr (_, shutdown_succeeds))
  progress listening selecting ch false d p = inr (inl (refl, refl, refl))
  progress listening selecting ch true d p = inr (inr (_, sees_done))
  progress listening awaiting ch b d p = inr (inr (closing-CanStep awaiting ch b d p.1))
  progress listening (returned r) ch b d (inl p) = absurd p
  progress listening (returned r) ch b d (inr p) =
      inr (inr (closing-CanStep (returned r) ch b d p.1))
  progress (sending e) selecting ch b d p = inr (inr (sending-CanStep e selecting ch b d p))
  progress (sending e) awaiting ch b d p = inr (inr (sending-CanStep e awaiting ch b d p.0))
  progress (sending e) (returned r) ch b d (inl p) = absurd p
  progress (sending e) (returned r) ch b d (inr p) =
      inr (inr (sending-CanStep e (returned r) ch b d p.0))
  progress (finished e) selecting none b d p = cc
  progress (finished e) selecting (some r) b d p = inr (inr (_, receives r))
  progress (finished e) awaiting none b d p = cc
  progress (finished e) awaiting (some r) b d p = inr (inr (_, receives_last r))
  progress (finished e) (returned r) ch b d p = inl ((r, refl), (e, refl))

  -- Whatever the order of the steps, a run has six at most, and until `Run` has returned and its
  -- goroutine has ended, one of the two can take a step, unless the server still serves and the context
  -- has not ended: there is no deadlock, and no goroutine is left behind.
  pub Runs-IsEnd :
      {n : ℕ} {s : State}
      → Runs server_closed is_closed initial n s
      → (n ≤ 6) × (IsEnd s ⊎ IsServing s ⊎ CanStep s)
  Runs-IsEnd {n} {s} rs = (
    omega (arith, Runs-weight rs),
    progress s.server s.caller s.serve_err_ch s.cancelled s.closing (Runs-IsSound rs refl),
  )
