-- ===== src/Health/Check/Weight.antt =====
-- Every turn in `Service.Check` of internal/health/health.go brings it nearer to its end.
use chuchu.Prelude.{
  ℕ, zero, suc, ◌+◌, ◌*◌, ◌≤◌, length, ltb, ◌≡◌, refl, ap, Bool, true, false, List, [], ◌∷◌, ◌++◌,
  Option, none, some, some_injective, arith, if◌then◌else◌, String, length-append,
}
use mathlib.Core.Path.{subst}
use chuchu.Health.{CheckResult}
use chuchu.Health.Check.{
  Goroutine, checking, sending, leaving, left, Caller, starting, receiving, returned, State,
  send_result, wg_done, run_goroutine, turn_at, wake, receive, run_caller, Turn, caller_turn,
  goroutine_turn, take_turn, run_turns,
}
use chuchu.Health.Check.Sound.{sum, map-eq_some, turn_at-Replaces}
use chuchu.Health.Check.Loops.{bind-eq_some}

-- How many turns are left at most.
abbrev goroutine_weight : Goroutine → ℕ
goroutine_weight (checking c) = 4
goroutine_weight (sending r) = 3
goroutine_weight leaving = 1
goroutine_weight left = 0

abbrev caller_weight : Caller → ℕ
caller_weight (starting cs) = 5 * length cs + 2
caller_weight (receiving checks all_ok) = 1
caller_weight (returned report) = 0

abbrev shared_weight : State → ℕ
shared_weight s = length s.results + caller_weight s.caller

abbrev pub weight : State → ℕ
weight s = sum goroutine_weight s.goroutines + shared_weight s

if_some : {A : Type 0} (b : Bool) {x t : A} → (if b then some x else none) ≡ some t → x ≡ t
if_some true h = some_injective h
if_some false h = cc h

module _ (capacity : ℕ) (s : State) where
  abbrev Lowers : Goroutine → Goroutine × State → Type 0
  Lowers old (new, s') =
      suc (goroutine_weight new + shared_weight s') ≤ goroutine_weight old + shared_weight s

  sending-Lowers :
      (r : CheckResult) (is_closed room : Bool) {x : Goroutine × State}
      → (if is_closed
          then some (left, record s { panicked = true })
          else if room
          then some (leaving, record s { results = s.results ++ (r ∷ []) })
          else none)
        ≡ some x
      → Lowers (sending r) x
  sending-Lowers r true room ran = subst (Lowers (sending r)) (some_injective ran) (omega arith)
  sending-Lowers r false true ran =
      subst (Lowers (sending r)) (some_injective ran)
        (omega (arith, length-append s.results (r ∷ [])))
  sending-Lowers r false false ran = cc ran

  leaving-Lowers : (n : ℕ) → Lowers leaving (wg_done n s)
  unfolding wg_done
  leaving-Lowers zero = omega arith
  leaving-Lowers (suc n) = omega arith

  goroutine-Lowers :
      (old : Goroutine) {x : Goroutine × State}
      → run_goroutine capacity old s ≡ some x
      → Lowers old x
  unfolding run_goroutine send_result
  goroutine-Lowers (checking c) ran = subst (Lowers (checking c)) (some_injective ran) (omega arith)
  goroutine-Lowers (sending r) ran = sending-Lowers r s.closed (ltb (length s.results) capacity) ran
  goroutine-Lowers leaving ran = subst (Lowers leaving) (some_injective ran) (leaving-Lowers s.wg)
  goroutine-Lowers left ran = cc ran

  waiting-weight :
      (wg : ℕ) {t : State} → s.caller ≡ starting [] → wake wg s ≡ some t → suc (weight t) ≤ weight s
  unfolding wake
  waiting-weight zero e ran =
      subst (λ t. suc (weight t) ≤ weight s) (some_injective ran)
        (omega (arith, ap caller_weight e))
  waiting-weight (suc n) e ran = cc ran

  receiving-weight :
      (checks : String → Option String) (all_ok : Bool) (results : List CheckResult) {t : State}
      → s.caller ≡ receiving checks all_ok
      → s.results ≡ results
      → receive checks all_ok results s ≡ some t
      → suc (weight t) ≤ weight s
  unfolding receive
  receiving-weight checks all_ok (r ∷ rs) e queue ran =
      subst (λ t. suc (weight t) ≤ weight s) (some_injective ran)
        (omega (arith, ap caller_weight e, ap length queue))
  receiving-weight checks all_ok [] e queue ran =
      subst (λ t. suc (weight t) ≤ weight s) (if_some s.closed ran)
        (omega (arith, ap caller_weight e))

  caller-weight :
      (c : Caller) {t : State} → s.caller ≡ c → run_caller c s ≡ some t → suc (weight t) ≤ weight s
  unfolding run_caller
  caller-weight (starting (c ∷ cs)) e ran =
      subst (λ t. suc (weight t) ≤ weight s) (some_injective ran)
        (omega (arith, ap caller_weight e))
  caller-weight (starting []) e ran = waiting-weight s.wg e ran
  caller-weight (receiving checks all_ok) e ran =
      receiving-weight checks all_ok s.results e refl ran
  caller-weight (returned report) e ran = cc ran

  take_turn-weight :
      (turn : Turn) {t : State} → take_turn capacity turn s ≡ some t → suc (weight t) ≤ weight s
  unfolding take_turn
  take_turn-weight caller_turn ran = caller-weight s.caller refl ran
  take_turn-weight (goroutine_turn i) ran =
      let ((gs, s'), e, same) =
        map-eq_some (λ x. record x.1 { goroutines = x.0 }) (turn_at capacity i s.goroutines s)
          ran in
      let replaced = turn_at-Replaces capacity i s.goroutines s e in
      let (n, a, b) = replaced.rest goroutine_weight in
      let lower = goroutine-Lowers replaced.old replaced.ran in
      subst (λ t. suc (weight t) ≤ weight s) same (omega (arith, a, b, lower))

pub run_turns-weight :
    (capacity : ℕ) (turns : List Turn) (s t : State)
    → run_turns capacity turns s ≡ some t
    → length turns + weight t ≤ weight s
unfolding run_turns
run_turns-weight capacity [] s t ran =
    subst (λ t. 0 + weight t ≤ weight s) (some_injective ran) (omega arith)
run_turns-weight capacity (turn ∷ turns) s t ran =
    let (u, e, later) = bind-eq_some (take_turn capacity turn s) (run_turns capacity turns) ran in
    omega (arith, take_turn-weight capacity s turn e, run_turns-weight capacity turns u t later)
