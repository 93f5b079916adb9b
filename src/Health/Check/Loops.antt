-- ===== src/Health/Check/Loops.antt =====
-- The two loops of the caller in `Service.Check` of internal/health/health.go, and any turns of it and
-- its goroutines.
use chuchu.Health.Check.Turns.{goroutine-Keeps}
use chuchu.Prelude.{
  ℕ, zero, suc, length, ◌≡◌, refl, ap, ◌∙◌, Bool, true, false, List, [], ◌∷◌, ◌++◌, Option, none,
  some, some_injective, arith, if◌then◌else◌, String,
}
use mathlib.Core.Option
use mathlib.Core.Path.{subst}
use chuchu.Health.{CheckResult, collect, check, set_check, mark}
use chuchu.Health.Check.{
  Checker, checking, Caller, starting, receiving, returned, State, turn_at, wake, receive,
  run_caller, Turn, caller_turn, goroutine_turn, take_turn, run_turns,
}
use chuchu.Health.Check.Sound.{count, count-append, todo, IsSound, map-eq_some, turn_at-Replaces}

-- A result that arrives after the others
abbrev collect_one : CheckResult → (String → Option String) × Bool → (String → Option String) × Bool
collect_one r (checks, all_ok) =
    (set_check r.name (mark r.is_ok) checks, if r.is_ok then all_ok else false)

collect-append :
    (rs : List CheckResult) (r : CheckResult) (checks : String → Option String) (all_ok : Bool)
    → collect (rs ++ (r ∷ [])) checks all_ok ≡ collect_one r (collect rs checks all_ok)
unfolding collect
collect-append [] r checks all_ok = refl
collect-append (x ∷ rs) r checks all_ok = collect-append rs r _ _

if_true : {A : Type 0} (b : Bool) {x r : Option A} → b ≡ true → (if b then x else none) ≡ r → x ≡ r
if_true true e h = h
if_true false e h = cc e

module _ (checkers : List Checker) {s : State} (h : IsSound checkers s) where
  -- The turns of the caller
  start-IsSound :
      (c : Checker) (cs : List Checker)
      → s.caller ≡ starting (c ∷ cs)
      → IsSound checkers
          (record s { caller = starting cs; goroutines = checking c ∷ s.goroutines; wg = suc s.wg })
  start-IsSound c cs e = record {
    arrivals = h.arrivals;
    received = rw e at h.received;
    counted = omega (arith, h.counted);
    conserved = λ f. omega (arith, h.conserved f, ap (todo f) e);
    closed = rw e at h.closed;
    calm = h.calm;
  }

  wake-IsSound :
      s.caller ≡ starting []
      → s.wg ≡ 0
      → IsSound checkers (record s { caller = receiving (λ k. none) true; closed = true })
  unfolding collect
  wake-IsSound e none_left =
      let nothing : h.arrivals ≡ [] = rw e at h.received in
      record {
        arrivals = [];
        received = refl;
        counted = h.counted;
        conserved = λ f. omega (arith, h.conserved f, ap (todo f) e, ap (count f) nothing);
        closed = (refl, none_left);
        calm = h.calm;
      }

  receive-IsSound :
      (checks : String → Option String) (all_ok : Bool) (r : CheckResult) (rs : List CheckResult)
      → s.caller ≡ receiving checks all_ok
      → s.results ≡ r ∷ rs
      → IsSound checkers (record s {
        caller =
            receiving (set_check r.name (mark r.is_ok) checks) (if r.is_ok then all_ok else false);
        results = rs;
      })
  receive-IsSound checks all_ok r rs e queue =
      let so_far : collect h.arrivals (λ k. none) true ≡ (checks, all_ok) = rw e at h.received in
      record {
        arrivals = h.arrivals ++ (r ∷ []);
        received = collect-append h.arrivals r (λ k. none) true ∙ ap (collect_one r) so_far;
        counted = h.counted;
        conserved = λ f. omega (
          arith,
          h.conserved f,
          ap (todo f) e,
          ap (count f) queue,
          count-append f h.arrivals (r ∷ []),
        );
        closed = rw e at h.closed;
        calm = h.calm;
      }

  return-IsSound :
      (checks : String → Option String) (all_ok : Bool)
      → s.caller ≡ receiving checks all_ok
      → s.results ≡ []
      → IsSound checkers (record s {
        caller =
            returned (record { status = if all_ok then "ok" else "degraded"; checks = checks });
      })
  unfolding check
  return-IsSound checks all_ok e queue =
      let so_far : collect h.arrivals (λ k. none) true ≡ (checks, all_ok) = rw e at h.received in
      let (is_closed, none_left) : (s.closed ≡ true) × (s.wg ≡ 0) = rw e at h.closed in
      record {
        arrivals = h.arrivals;
        received = rw so_far refl;
        counted = h.counted;
        conserved = λ f. omega (arith, h.conserved f, ap (todo f) e);
        closed = (is_closed, none_left, queue);
        calm = h.calm;
      }

  waiting-IsSound :
      (wg : ℕ) {t : State}
      → s.caller ≡ starting []
      → s.wg ≡ wg
      → wake wg s ≡ some t
      → IsSound checkers t
  unfolding wake
  waiting-IsSound zero e none_left ran =
      subst (IsSound checkers) (some_injective ran) (wake-IsSound e none_left)
  waiting-IsSound (suc n) e none_left ran = cc ran

  receiving-IsSound :
      (checks : String → Option String) (all_ok : Bool) (results : List CheckResult) {t : State}
      → s.caller ≡ receiving checks all_ok
      → s.results ≡ results
      → receive checks all_ok results s ≡ some t
      → IsSound checkers t
  unfolding receive
  receiving-IsSound checks all_ok (r ∷ rs) e queue ran =
      subst (IsSound checkers) (some_injective ran) (receive-IsSound checks all_ok r rs e queue)
  receiving-IsSound checks all_ok [] e queue ran =
      let (is_closed, _) : (s.closed ≡ true) × (s.wg ≡ 0) = rw e at h.closed in
      subst (IsSound checkers) (some_injective (if_true s.closed is_closed ran))
        (return-IsSound checks all_ok e queue)

  caller-IsSound :
      (c : Caller) {t : State} → s.caller ≡ c → run_caller c s ≡ some t → IsSound checkers t
  unfolding run_caller
  caller-IsSound (starting (c ∷ cs)) e ran =
      subst (IsSound checkers) (some_injective ran) (start-IsSound c cs e)
  caller-IsSound (starting []) e ran = waiting-IsSound s.wg e refl ran
  caller-IsSound (receiving checks all_ok) e ran =
      receiving-IsSound checks all_ok s.results e refl ran
  caller-IsSound (returned report) e ran = cc ran

  pub take_turn-IsSound :
      (turn : Turn) {t : State} → take_turn (length checkers) turn s ≡ some t → IsSound checkers t
  unfolding take_turn
  take_turn-IsSound caller_turn ran = caller-IsSound s.caller refl ran
  take_turn-IsSound (goroutine_turn i) ran =
      let ((gs, s'), e, same) =
        map-eq_some (λ x. record x.1 { goroutines = x.0 })
          (turn_at (length checkers) i s.goroutines s) ran in
      let replaced = turn_at-Replaces (length checkers) i s.goroutines s e in
      subst (IsSound checkers) same
        (goroutine-Keeps checkers h gs replaced.old (replaced.new, s') replaced.ran replaced.rest)

pub bind-eq_some :
    {A B : Type 0} (r : Option A) (f : A → Option B) {b : B}
    → Option.bind r f ≡ some b
    → (a : A) × (r ≡ some a) × (f a ≡ some b)
unfolding Option.bind
bind-eq_some none f h = cc h
bind-eq_some (some a) f h = (a, refl, h)

-- Whatever turns are taken
pub run_turns-IsSound :
    (checkers : List Checker) (turns : List Turn) {s t : State}
    → IsSound checkers s
    → run_turns (length checkers) turns s ≡ some t
    → IsSound checkers t
unfolding run_turns
run_turns-IsSound checkers [] h ran = subst (IsSound checkers) (some_injective ran) h
run_turns-IsSound checkers (turn ∷ turns) {s} {t} h ran =
    let (u, e, later) = bind-eq_some _ (run_turns (length checkers) turns) ran in
    run_turns-IsSound checkers turns (take_turn-IsSound checkers h turn e) later
