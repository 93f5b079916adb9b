-- ===== src/Health/Check/Ends.antt =====
-- `Service.Check` of internal/health/health.go ends, in any order of turns, without a panic and with no
-- goroutine left behind.
use chuchu.Health.Check.Weight.{run_turns-weight}
use chuchu.Prelude.{
  ℕ, zero, suc, ◌+◌, ◌*◌, ◌≤◌, length, ltb, ◌≡◌, refl, ap, ◌∙◌, Bool, true, false, List, [], ◌∷◌,
  ◌++◌, Option, none, some, arith, if◌then◌else◌, ◌⊎◌, inl, inr, String,
}
use chuchu.Health.{Report, CheckResult, send}
use chuchu.Health.Check.{
  Checker, Goroutine, checking, sending, leaving, left, Caller, starting, receiving, returned,
  State, initial, send_result, wg_done, run_goroutine, turn_at, wake, receive, run_caller, Turn,
  caller_turn, goroutine_turn, take_turn, run_turns,
}
use chuchu.Health.Check.Sound.{sum, active, pending, IsSound, initial-IsSound}
use chuchu.Health.Check.Turns.{ready}
use chuchu.Health.Check.Loops.{run_turns-IsSound}

-- The caller has returned, and no goroutine is left.
abbrev pub IsEnd : State → Type 0
IsEnd s = ((report : Report) × (s.caller ≡ returned report)) × (sum active s.goroutines ≡ 0)

-- Someone can take a turn.
abbrev pub CanRun : ℕ → State → Type 0
CanRun capacity s = (turn : Turn) × ((t : State) × (take_turn capacity turn s ≡ some t))

module _ (capacity : ℕ) (s : State) where
  -- The goroutine at some place can take a turn.
  abbrev CanTurn : List Goroutine → Type 0
  CanTurn gs = (i : ℕ) × ((x : List Goroutine × State) × (turn_at capacity i gs s ≡ some x))

  first-CanTurn :
      (g : Goroutine) (gs : List Goroutine) (x : Goroutine × State)
      → run_goroutine capacity g s ≡ some x
      → CanTurn (g ∷ gs)
  unfolding turn_at
  first-CanTurn g gs x ran = (0, ((x.0 ∷ gs, x.1), rw ran refl))

  active-CanTurn :
      (gs : List Goroutine)
      → 1 ≤ sum active gs
      → (1 ≤ sum (pending (λ r. true)) gs
          → (s.closed ≡ false) × (ltb (length s.results) capacity ≡ true))
      → CanTurn gs
  unfolding turn_at run_goroutine send_result
  active-CanTurn [] busy room = absurd (omega (arith, busy))
  active-CanTurn (checking c ∷ gs) busy room =
      first-CanTurn (checking c) gs (sending (send c), s) refl
  active-CanTurn (sending r ∷ gs) busy room =
      let (is_open, free) = room (omega arith) in
      first-CanTurn (sending r) gs (leaving, record s { results = s.results ++ (r ∷ []) })
        (rw (is_open, free) refl)
  active-CanTurn (leaving ∷ gs) busy room = first-CanTurn leaving gs (wg_done s.wg s) refl
  active-CanTurn (left ∷ gs) busy room =
      let (i, (x, ran)) = active-CanTurn gs (omega (arith, busy)) (λ p. room (omega (arith, p))) in
      (suc i, ((left ∷ x.0, x.1), rw ran refl))

some_if :
    {A : Type 0} (b : Bool) (x : A) → b ≡ true → (t : A) × ((if b then some x else none) ≡ some t)
some_if true x h = (x, refl)
some_if false x h = cc h

decrease : {n : ℕ} → 1 ≤ n → (m : ℕ) × (n ≡ m + 1)
decrease {n = zero} h = absurd (omega (arith, h))
decrease {n = suc n} h = (n, omega arith)

module _ (checkers : List Checker) (s : State) (h : IsSound checkers s) where
  goroutine-CanRun : CanTurn (length checkers) s s.goroutines → CanRun (length checkers) s
  unfolding take_turn
  goroutine-CanRun (i, (x, ran)) =
      (goroutine_turn i, (record x.1 { goroutines = x.0 }, rw ran refl))

  busy-CanRun : 1 ≤ sum active s.goroutines → CanRun (length checkers) s
  busy-CanRun busy = goroutine-CanRun (
      active-CanTurn (length checkers) s s.goroutines busy
        λ p. (ready checkers h (decrease busy).0 (decrease p).0 (decrease busy).1 (decrease p).1))

  caller-CanRun :
      (c : Caller) (t : State) → s.caller ≡ c → run_caller c s ≡ some t → CanRun (length checkers) s
  unfolding take_turn
  caller-CanRun c t e ran = (caller_turn, (t, ap (λ c. run_caller c s) e ∙ ran))

  wake_ran : (n : ℕ) → n ≡ 0 → (t : State) × (wake n s ≡ some t)
  unfolding wake
  wake_ran zero e = (_, refl)
  wake_ran (suc n) e = absurd (omega (arith, e))

  receive_ran :
      (checks : String → Option String) (all_ok : Bool) (results : List CheckResult)
      → s.closed ≡ true
      → (t : State) × (receive checks all_ok results s ≡ some t)
  unfolding receive
  receive_ran checks all_ok (r ∷ rs) e = (_, refl)
  receive_ran checks all_ok [] e = some_if s.closed _ e

  idle-CanRun :
      (c : Caller)
      → s.caller ≡ c
      → sum active s.goroutines ≡ 0
      → IsEnd s ⊎ CanRun (length checkers) s
  unfolding run_caller
  idle-CanRun (starting (c ∷ cs)) e idle = inr (caller-CanRun (starting (c ∷ cs)) _ e refl)
  idle-CanRun (starting []) e idle =
      let (t, ran) = wake_ran s.wg (omega (arith, h.counted, idle)) in
      inr (caller-CanRun (starting []) t e ran)
  idle-CanRun (receiving checks all_ok) e idle =
      let (is_closed, _) : (s.closed ≡ true) × (s.wg ≡ 0) = rw e at h.closed in
      let (t, ran) = receive_ran checks all_ok s.results is_closed in
      inr (caller-CanRun (receiving checks all_ok) t e ran)
  idle-CanRun (returned report) e idle = inl ((report, e), idle)

  ends_or_runs : (n : ℕ) → sum active s.goroutines ≡ n → IsEnd s ⊎ CanRun (length checkers) s
  ends_or_runs zero e = idle-CanRun s.caller refl e
  ends_or_runs (suc n) e = inr (busy-CanRun (omega (arith, e)))

-- Whatever turns the caller and its goroutines take, in any order, there are five at most for each
-- checker and two, none panics, and until the caller has returned and no goroutine is left one of them can
-- take a turn: the channel is never full or closed for a result, and nobody waits for ever.
pub run_turns-IsEnd :
    (checkers : List Checker) (turns : List Turn) (s : State)
    → run_turns (length checkers) turns (initial checkers) ≡ some s
    → (length turns ≤ 5 * length checkers + 2)
      × (s.panicked ≡ false)
      × (IsEnd s ⊎ CanRun (length checkers) s)
unfolding initial
run_turns-IsEnd checkers turns s ran =
    let sound = run_turns-IsSound checkers turns (initial-IsSound checkers) ran in
    (
      omega (arith, run_turns-weight (length checkers) turns (initial checkers) s ran),
      sound.calm,
      ends_or_runs checkers s sound (sum active s.goroutines) refl,
    )
