-- ===== src/Health/Check/Sound.antt =====
-- What holds of the goroutines and the channel of `Service.Check` in internal/health/health.go after any
-- turns: the channel has room for every result, and is closed when no goroutine is left.
use chuchu.Prelude.{
  ℕ, zero, suc, ◌+◌, length, ◌≡◌, refl, sym, ap, ◌∙◌, Bool, true, false, List, [], ◌∷◌, ◌++◌, map,
  Option, none, some, some_injective, arith, if◌then◌else◌,
}
use mathlib.Core.Option
use chuchu.Health.{CheckResult, send, collect, check}
use chuchu.Health.Check.{
  Checker, Goroutine, checking, sending, leaving, left, Caller, starting, receiving, returned,
  State, initial, run_goroutine, turn_at,
}

-- How many results a test holds of
abbrev pub bit : Bool → ℕ
bit b = if b then 1 else 0

abbrev pub count : (CheckResult → Bool) → List CheckResult → ℕ
count f [] = 0
count f (r ∷ rs) = bit (f r) + count f rs

pub count-append :
    (f : CheckResult → Bool) (xs ys : List CheckResult)
    → count f (xs ++ ys) ≡ count f xs + count f ys
count-append f [] ys = omega arith
count-append f (x ∷ xs) ys = omega (arith, count-append f xs ys)

pub count-length : (xs : List CheckResult) → count (λ r. true) xs ≡ length xs
count-length [] = refl
count-length (x ∷ xs) = omega (arith, count-length xs)

abbrev pub sum : (Goroutine → ℕ) → List Goroutine → ℕ
sum m [] = 0
sum m (g ∷ gs) = m g + sum m gs

-- Is the goroutine counted by the `WaitGroup`?
abbrev pub active : Goroutine → ℕ
active (checking c) = 1
active (sending r) = 1
active leaving = 1
active left = 0

-- The result that it is going to send
abbrev pub pending : (CheckResult → Bool) → Goroutine → ℕ
pending f (checking c) = bit (f (send c))
pending f (sending r) = bit (f r)
pending f leaving = 0
pending f left = 0

abbrev pub todo : (CheckResult → Bool) → Caller → ℕ
todo f (starting cs) = count f (map send cs)
todo f (receiving checks all_ok) = 0
todo f (returned report) = 0

-- What the caller has made of the results that have arrived
abbrev pub Received : List CheckResult → Caller → Type 0
Received arrivals (starting cs) = arrivals ≡ []
Received arrivals (receiving checks all_ok) = collect arrivals (λ k. none) true ≡ (checks, all_ok)
Received arrivals (returned report) = report ≡ check arrivals

-- The channel is closed after the last goroutine has ended.
abbrev pub Closed : Caller → Bool → ℕ → List CheckResult → Type 0
Closed (starting cs) closed wg results = closed ≡ false
Closed (receiving checks all_ok) closed wg results = (closed ≡ true) × (wg ≡ 0)
Closed (returned report) closed wg results = (closed ≡ true) × (wg ≡ 0) × (results ≡ [])

pub record IsSound (checkers : List Checker) (s : State) : Type 0 where
  pub arrivals : List CheckResult
  pub received : Received arrivals s.caller
  pub counted : s.wg ≡ sum active s.goroutines
  pub conserved :
      (f : CheckResult → Bool)
      → todo f s.caller + sum (pending f) s.goroutines + count f s.results + count f arrivals
        ≡ count f (map send checkers)
  pub closed : Closed s.caller s.closed s.wg s.results
  pub calm : s.panicked ≡ false

pub initial-IsSound : (checkers : List Checker) → IsSound checkers (initial checkers)
unfolding initial
initial-IsSound checkers = record {
  arrivals = [];
  received = refl;
  counted = refl;
  conserved = λ f. omega arith;
  closed = refl;
  calm = refl;
}

-- A turn of one goroutine changes it alone.
pub record Replaces (capacity : ℕ) (gs gs' : List Goroutine) (s s' : State) : Type 0 where
  pub old : Goroutine
  pub new : Goroutine
  pub ran : run_goroutine capacity old s ≡ some (new, s')
  pub rest : (m : Goroutine → ℕ) → (n : ℕ) × (sum m gs ≡ n + m old) × (sum m gs' ≡ n + m new)

pub map-eq_some :
    {A B : Type 0} (f : A → B) (r : Option A) {b : B}
    → Option.map f r ≡ some b
    → (a : A) × (r ≡ some a) × (f a ≡ b)
map-eq_some f none h = cc h
map-eq_some f (some a) h = (a, refl, some_injective h)

pub turn_at-Replaces :
    (capacity i : ℕ) (gs : List Goroutine) (s : State) {gs' : List Goroutine} {s' : State}
    → turn_at capacity i gs s ≡ some (gs', s')
    → Replaces capacity gs gs' s s'
unfolding turn_at
turn_at-Replaces capacity i [] s h = cc h
turn_at-Replaces capacity zero (g ∷ gs) s {gs'} {s'} h =
    let ((g', t), e, same) = map-eq_some (λ x. (x.0 ∷ gs, x.1)) (run_goroutine capacity g s) h in
    record {
      old = g;
      new = g';
      ran = e ∙ ap (λ t. some (g', t)) (ap (λ x. x.1) same);
      rest = λ m. (sum m gs, omega arith, ap (sum m) (sym (ap (λ x. x.0) same)) ∙ omega arith);
    }
turn_at-Replaces capacity (suc i) (g ∷ gs) s {gs'} {s'} h =
    let ((hs, t), e, same) = map-eq_some (λ x. (g ∷ x.0, x.1)) (turn_at capacity i gs s) h in
    let inner = turn_at-Replaces capacity i gs s e in
    record {
      old = inner.old;
      new = inner.new;
      ran = inner.ran ∙ ap (λ t. some (inner.new, t)) (ap (λ x. x.1) same);
      rest = λ m.
          let (n, a, b) = inner.rest m in
          (m g + n, omega (arith, a), ap (sum m) (sym (ap (λ x. x.0) same)) ∙ omega (arith, b));
    }
