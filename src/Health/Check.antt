-- ===== src/Health/Check.antt =====
-- `Service.Check` of internal/health/health.go: its goroutines, the channel of the results, the
-- `WaitGroup`, and the caller, as turns that they take in any order. A turn of someone who must wait is
-- `none`. The checkers return within their time limit.
pub mod Sound
pub mod Turns
pub mod Loops
pub mod Weight
pub mod Ends
pub mod Outcome
use chuchu.Prelude.{
  ℕ, zero, suc, ◌+◌, length, ltb, Bool, true, false, String, List, [], ◌∷◌, ◌++◌, Option, none,
  some, if◌then◌else◌,
}
use mathlib.Core.Option
use chuchu.Effect.{Result}
use chuchu.Health.{Report, CheckResult, send, set_check, mark}

-- A checker, by its name and what its `Check` returns
abbrev pub Checker : Type 0
Checker = String × Result (Unit {0})

-- A goroutine: in `Check`, in front of the send, in front of `wg.Done()`, and at its end.
pub data Goroutine : Type 0 where
  checking : Checker → Goroutine
  sending : CheckResult → Goroutine
  leaving left : Goroutine

-- The caller: in the loop over the checkers, or with none left in `wg.Wait()`; in the loop over the
-- channel; and returned.
pub data Caller : Type 0 where
  starting : List Checker → Caller
  receiving : (String → Option String) → Bool → Caller
  returned : Report → Caller

pub record State : Type 0 where
  pub caller : Caller
  pub goroutines : List Goroutine
  pub results : List CheckResult
  pub wg : ℕ
  pub closed : Bool
  pub panicked : Bool

unfoldable pub initial : List Checker → State
initial checkers = record {
  caller = starting checkers;
  goroutines = [];
  results = [];
  wg = 0;
  closed = false;
  panicked = false;
}

-- `results <- r`: it panics on a closed channel, and waits on a full one.
unfoldable pub send_result : ℕ → CheckResult → State → Option (Goroutine × State)
send_result capacity r s =
    if s.closed
    then some (left, record s { panicked = true })
    else if ltb (length s.results) capacity
    then some (leaving, record s { results = s.results ++ (r ∷ []) })
    else none

-- `wg.Done()`: it panics below zero.
unfoldable pub wg_done : ℕ → State → Goroutine × State
wg_done zero s = (left, record s { panicked = true })
wg_done (suc n) s = (left, record s { wg = n })

-- A goroutine runs to its next step, and the rest of the state with it.
unfoldable pub run_goroutine : ℕ → Goroutine → State → Option (Goroutine × State)
run_goroutine capacity (checking c) s = some (sending (send c), s)
run_goroutine capacity (sending r) s = send_result capacity r s
run_goroutine capacity leaving s = some (wg_done s.wg s)
run_goroutine capacity left s = none

-- The goroutine at this place of the list takes a turn.
unfoldable pub turn_at : ℕ → ℕ → List Goroutine → State → Option (List Goroutine × State)
turn_at capacity i [] s = none
turn_at capacity zero (g ∷ gs) s = Option.map (λ x. (x.0 ∷ gs, x.1)) (run_goroutine capacity g s)
turn_at capacity (suc i) (g ∷ gs) s = Option.map (λ x. (g ∷ x.0, x.1)) (turn_at capacity i gs s)

-- `wg.Wait()` and `close(results)`
unfoldable pub wake : ℕ → State → Option State
wake zero s = some (record s { caller = receiving (λ k. none) true; closed = true })
wake (suc n) s = none

-- A turn of the loop over the channel, which ends when the channel is closed and empty
unfoldable pub receive : (String → Option String) → Bool → List CheckResult → State → Option State
receive checks all_ok (r ∷ rs) s = some (record s {
  caller = receiving (set_check r.name (mark r.is_ok) checks) (if r.is_ok then all_ok else false);
  results = rs;
})
receive checks all_ok [] s =
    if s.closed
    then some (record s {
      caller = returned (record { status = if all_ok then "ok" else "degraded"; checks = checks });
    })
    else none

-- `wg.Add(1)` and `go func`, or one of the others
unfoldable pub run_caller : Caller → State → Option State
run_caller (starting (c ∷ cs)) s =
    some (record s { caller = starting cs; goroutines = checking c ∷ s.goroutines; wg = suc s.wg })
run_caller (starting []) s = wake s.wg s
run_caller (receiving checks all_ok) s = receive checks all_ok s.results s
run_caller (returned report) s = none

-- Who takes the next turn.
pub data Turn : Type 0 where
  caller_turn : Turn
  goroutine_turn : ℕ → Turn

unfoldable pub take_turn : ℕ → Turn → State → Option State
take_turn capacity caller_turn s = run_caller s.caller s
take_turn capacity (goroutine_turn i) s =
    Option.map (λ x. record x.1 { goroutines = x.0 }) (turn_at capacity i s.goroutines s)

-- What an order of turns leads to, if each of them can be taken
unfoldable pub run_turns : ℕ → List Turn → State → Option State
run_turns capacity [] s = some s
run_turns capacity (t ∷ ts) s = Option.bind (take_turn capacity t s) (run_turns capacity ts)
