-- ===== src/Tests/Checks.antt =====
-- `Service.Check` on two checkers, of which one fails, with their sends in the opposite order.
use chuchu.Prelude.{
  ◌≡◌, refl, ◌+◌, ◌*◌, ◌≤◌, ◌⊎◌, inl, length, false, true, List, [], ◌∷◌, map, none,
}
use mathlib.Core.Option
use chuchu.Apperr.{foreign}
use chuchu.Effect.{ok, err}
use chuchu.Health.{Report, send, check, set_check}
use chuchu.Health.Check.{
  Checker, left, returned, State, initial, Turn, caller_turn, goroutine_turn, run_turns, take_turn,
  turn_at, run_caller, run_goroutine, send_result, wg_done, wake, receive,
}
use chuchu.Health.Check.Ends.{IsEnd, CanRun, run_turns-IsEnd}
use chuchu.Health.Check.Outcome.{run_turns-check}

abbrev checkers : List Checker
checkers = ("postgres", ok tt) ∷ ("redis", err (foreign "refused")) ∷ []

abbrev turns : List Turn
turns =
    caller_turn
    ∷ goroutine_turn 0
    ∷ caller_turn
    ∷ goroutine_turn 0
    ∷ goroutine_turn 0
    ∷ goroutine_turn 1
    ∷ goroutine_turn 0
    ∷ goroutine_turn 1
    ∷ caller_turn
    ∷ caller_turn
    ∷ caller_turn
    ∷ caller_turn
    ∷ []

abbrev final_report : Report
final_report = record {
  status = "degraded";
  checks = set_check "postgres" "ok" (set_check "redis" "down" (λ k. none));
}

abbrev final : State
final = record {
  caller = returned final_report;
  goroutines = left ∷ left ∷ [];
  results = [];
  wg = 0;
  closed = true;
  panicked = false;
}

run_turns-IsEnd_example :
    (length turns ≤ 5 * length checkers + 2)
    × (final.panicked ≡ false)
    × (IsEnd final ⊎ CanRun (length checkers) final)
unfolding initial run_turns take_turn turn_at run_caller run_goroutine send_result wg_done wake
    receive send Option.bind
run_turns-IsEnd_example = run_turns-IsEnd checkers turns final refl

run_turns-check_example :
    (final_report.status ≡ (check (map send checkers)).status)
    × (final_report.checks "redis" ≡ (check (map send checkers)).checks "redis")
unfolding initial run_turns take_turn turn_at run_caller run_goroutine send_result wg_done wake
    receive send Option.bind
run_turns-check_example =
    run_turns-check checkers turns final final_report "redis" refl refl (inl refl)
