-- ===== src/Health/Check/Outcome.antt =====
-- The report that `Service.Check` of internal/health/health.go returns, in any order of turns.
use chuchu.Prelude.{
  ℕ, ◌+◌, length, ltb, ◌≡◌, refl, sym, ap, ◌∙◌, Bool, true, false, not, List, [], ◌∷◌, map, ◌==◌,
  ◌&&◌, Option, none, some, arith, if◌then◌else◌, inl, inr, String, eqb, all, ◌⊎◌,
}
use chuchu.Health.{Report, CheckResult, send, collect, check, mark}
use chuchu.Health.Arrivals.{collect-ok}
use chuchu.Health.Check.{
  Checker, Goroutine, checking, sending, leaving, left, State, returned, Turn, run_turns, initial,
}
use chuchu.Health.Check.Sound.{bit, count, sum, active, pending, todo, IsSound, initial-IsSound}
use chuchu.Health.Check.Loops.{run_turns-IsSound}

-- The results of this name that are in order, and those that are not
abbrev pub fine : String → CheckResult → Bool
fine k r = (k == r.name) && r.is_ok

abbrev pub down : String → CheckResult → Bool
down k r = (k == r.name) && not r.is_ok

-- What the report says of a name, from how many results of it are in order and how many are not.
abbrev verdict : ℕ → ℕ → Option String → Option String
verdict a b rest = if ltb 0 a then some "ok" else if ltb 0 b then some "down" else rest

-- One more result, before the others
verdict_step :
    (here is_ok : Bool) (a b : ℕ) (rest : Option String)
    → (bit (here && is_ok) + a ≡ 0) ⊎ (bit (here && not is_ok) + b ≡ 0)
    → verdict a b (if here then some (mark is_ok) else rest)
      ≡ verdict (bit (here && is_ok) + a) (bit (here && not is_ok) + b) rest
verdict_step false is_ok a b rest one = ground arith
verdict_step true false a b rest one = ground (arith, one)
verdict_step true true a b rest one = ground (arith, one)

-- The names of the results are used by one outcome each.
abbrev pub IsClear : String → List CheckResult → Type 0
IsClear k rs = (count (fine k) rs ≡ 0) ⊎ (count (down k) rs ≡ 0)

collect-verdict :
    (rs : List CheckResult) (checks : String → Option String) (all_ok : Bool) (k : String)
    → IsClear k rs
    → (collect rs checks all_ok).0 k ≡ verdict (count (fine k) rs) (count (down k) rs) (checks k)
unfolding collect
collect-verdict [] checks all_ok k one = ground arith
collect-verdict (r ∷ rs) checks all_ok k one =
    let rest : IsClear k rs = elim one [
      | inl p ↦ inl (omega (arith, p))
      | inr p ↦ inr (omega (arith, p))
    ] in
    collect-verdict rs _ _ k rest
    ∙ verdict_step (k == r.name) r.is_ok (count (fine k) rs) (count (down k) rs) (checks k) one

-- All results are in order exactly if none is not.
all-count : (rs : List CheckResult) → all (λ r. r.is_ok) rs ≡ eqb (count (λ r. not r.is_ok) rs) 0
all-count [] = ground arith
all-count (r ∷ rs) =
    all_step r.is_ok (count (λ r. not r.is_ok) rs) (all (λ r. r.is_ok) rs) (all-count rs)
  where
    all_step :
        (is_ok : Bool) (n : ℕ) (b : Bool) → b ≡ eqb n 0 → (is_ok && b) ≡ eqb (bit (not is_ok) + n) 0
    all_step true n b h = ground (arith, h)
    all_step false n b h = ground arith

-- The report depends on how many results there are of each kind, and on nothing else.
check-count :
    (rs ts : List CheckResult) (k : String)
    → ((f : CheckResult → Bool) → count f rs ≡ count f ts)
    → IsClear k ts
    → ((check rs).status ≡ (check ts).status) × ((check rs).checks k ≡ (check ts).checks k)
unfolding check
check-count rs ts k same clear =
    let clear' : IsClear k rs = elim clear [
      | inl p ↦ inl (omega (arith, p, same (fine k)))
      | inr p ↦ inr (omega (arith, p, same (down k)))
    ] in
    let none_yet : String → Option String = λ k. none in
    (
      ap (λ b. if b then "ok" else "degraded")
          (collect-ok rs none_yet true
            ∙ all-count rs
            ∙ ap (λ n. eqb n 0) (same (λ r. not r.is_ok))
            ∙ sym (all-count ts)
            ∙ sym (collect-ok ts none_yet true)),
      collect-verdict rs none_yet true k clear'
          ∙ ap (λ n. verdict n (count (down k) rs) none) (same (fine k))
          ∙ ap (λ n. verdict (count (fine k) ts) n none) (same (down k))
          ∙ sym (collect-verdict ts none_yet true k clear),
    )

-- With no goroutine left, none is going to send.
pending-active :
    (f : CheckResult → Bool) (gs : List Goroutine) → sum active gs ≡ 0 → sum (pending f) gs ≡ 0
pending-active f [] h = refl
pending-active f (checking c ∷ gs) h = absurd (omega (arith, h))
pending-active f (sending r ∷ gs) h = absurd (omega (arith, h))
pending-active f (leaving ∷ gs) h = absurd (omega (arith, h))
pending-active f (left ∷ gs) h = omega (arith, pending-active f gs (omega (arith, h)))

-- When the caller has returned, every result has arrived.
returned-count :
    (checkers : List Checker) (s : State) (report : Report) (h : IsSound checkers s)
    → s.caller ≡ returned report
    → (report ≡ check h.arrivals)
      × ((f : CheckResult → Bool) → count f h.arrivals ≡ count f (map send checkers))
returned-count checkers s report h e =
    let (_, none_left, queue) : (s.closed ≡ true) × (s.wg ≡ 0) × (s.results ≡ []) =
      rw e at h.closed in
    (
      rw e at h.received,
      λ f. omega (
        arith,
        h.conserved f,
        ap (todo f) e,
        ap (count f) queue,
        pending-active f s.goroutines (omega (arith, none_left, h.counted)),
      ),
    )

-- In whatever order the caller and its goroutines take their turns, the report that is returned has the
-- status, and for each name that no two checkers with different outcomes share the entry, that the results
-- have in the order of the checkers.
pub run_turns-check :
    (checkers : List Checker) (turns : List Turn) (s : State) (report : Report) (k : String)
    → run_turns (length checkers) turns (initial checkers) ≡ some s
    → s.caller ≡ returned report
    → IsClear k (map send checkers)
    → (report.status ≡ (check (map send checkers)).status)
      × (report.checks k ≡ (check (map send checkers)).checks k)
run_turns-check checkers turns s report k ran e clear =
    let sound = run_turns-IsSound checkers turns (initial-IsSound checkers) ran in
    let (is_check, same) = returned-count checkers s report sound e in
    let (status, checks) = check-count sound.arrivals (map send checkers) k same clear in
    (
      ap (λ (r : Report). r.status) is_check ∙ status,
      ap (λ (r : Report). r.checks k) is_check ∙ checks,
    )
