-- ===== src/Health/Check/Turns.antt =====
-- Every turn in `Service.Check` of internal/health/health.go keeps what holds of its goroutines and its
-- channel.
use chuchu.Prelude.{
  ℕ, zero, suc, ◌+◌, ◌≤◌, ◌<◌, length, ltb, ◌≡◌, refl, Bool, true, false, List, [], ◌∷◌, ◌++◌, map,
  none, some, some_injective, arith, if◌then◌else◌,
}
use mathlib.Core.Path.{subst}
use chuchu.Health.{CheckResult, send}
use chuchu.Health.Check.{
  Checker, Goroutine, checking, sending, leaving, left, Caller, starting, receiving, returned,
  State, send_result, wg_done, run_goroutine,
}
use chuchu.Health.Check.Sound.{
  count, count-append, count-length, sum, active, pending, Closed, IsSound,
}

-- Before the last goroutine has ended the channel is open.
pub open-Closed :
    (c : Caller) (closed : Bool) (wg wg' : ℕ) (results results' : List CheckResult)
    → 1 ≤ wg
    → Closed c closed wg results
    → (closed ≡ false) × Closed c closed wg' results'
open-Closed (starting cs) closed wg wg' results results' busy h = (h, h)
open-Closed (receiving checks all_ok) closed wg wg' results results' busy h =
    absurd (omega (arith, busy, h.1))
open-Closed (returned report) closed wg wg' results results' busy h =
    absurd (omega (arith, busy, h.1))

count-sent : (cs : List Checker) → count (λ r. true) (map send cs) ≡ length cs
count-sent [] = refl
count-sent (c ∷ cs) = omega (arith, count-sent cs)

ltb_of_lt : (a b : ℕ) → a < b → ltb a b ≡ true
ltb_of_lt a b h = ground arith

module _ (checkers : List Checker) {s : State} (h : IsSound checkers s) where
  -- The goroutines and what they share, after one of them has made a step.
  moved-IsSound :
      (gs' : List Goroutine) (wg' : ℕ) (results' : List CheckResult) (old new : Goroutine)
      → ((m : Goroutine → ℕ) → (n : ℕ) × (sum m s.goroutines ≡ n + m old) × (sum m gs' ≡ n + m new))
      → active old ≡ 1
      → wg' + 1 ≡ s.wg + active new
      → ((f : CheckResult → Bool)
          → count f results' + pending f new ≡ count f s.results + pending f old)
      → IsSound checkers (record s { goroutines = gs'; wg = wg'; results = results' })
  moved-IsSound gs' wg' results' old new rest is_active counts sends =
      let (n, a, b) = rest active in
      let busy : 1 ≤ s.wg = omega (arith, a, is_active, h.counted) in
      record {
        arrivals = h.arrivals;
        received = h.received;
        counted = omega (arith, a, b, is_active, counts, h.counted);
        conserved =
            λ f. let (k, c, d) = rest (pending f) in omega (arith, c, d, sends f, h.conserved f);
        closed = (open-Closed s.caller s.closed s.wg wg' s.results results' busy h.closed).1;
        calm = h.calm;
      }

  -- A goroutine that is going to send finds the channel open, and room in it.
  pub ready :
      (n m : ℕ)
      → sum active s.goroutines ≡ n + 1
      → sum (pending (λ x. true)) s.goroutines ≡ m + 1
      → (s.closed ≡ false) × (ltb (length s.results) (length checkers) ≡ true)
  ready n m a c =
      let busy : 1 ≤ s.wg = omega (arith, a, h.counted) in
      let room : length s.results < length checkers =
        omega (arith, c, h.conserved (λ r. true), count-sent checkers, count-length s.results) in
      (
        (open-Closed s.caller s.closed s.wg s.wg s.results s.results busy h.closed).0,
        ltb_of_lt (length s.results) (length checkers) room,
      )

  module _ (gs' : List Goroutine) where
    -- What a turn that replaces this goroutine by that one has to keep.
    abbrev pub Keeps : Goroutine → Goroutine × State → Type 0
    Keeps old (new, s') =
        ((m : Goroutine → ℕ) → (n : ℕ) × (sum m s.goroutines ≡ n + m old) × (sum m gs' ≡ n + m new))
        → IsSound checkers (record s' { goroutines = gs' })

    check-Keeps : (c : Checker) → Keeps (checking c) (sending (send c), s)
    check-Keeps c rest =
        moved-IsSound gs' s.wg s.results (checking c) (sending (send c)) rest refl refl (λ f. refl)

    sent-Keeps :
        (r : CheckResult)
        → Keeps (sending r) (leaving, record s { results = s.results ++ (r ∷ []) })
    sent-Keeps r rest =
        moved-IsSound gs' s.wg (s.results ++ (r ∷ [])) (sending r) leaving rest refl refl
          (λ f. omega (arith, count-append f s.results (r ∷ [])))

    done-Keeps : (n : ℕ) → s.wg ≡ suc n → Keeps leaving (left, record s { wg = n })
    done-Keeps n e rest =
        moved-IsSound gs' n s.results leaving left rest refl (omega (arith, e)) (λ f. refl)

    sending-Keeps :
        (r : CheckResult) (is_closed room : Bool) (x : Goroutine × State)
        → is_closed ≡ false
        → room ≡ true
        → (if is_closed
            then some (left, record s { panicked = true })
            else if room
            then some (leaving, record s { results = s.results ++ (r ∷ []) })
            else none)
          ≡ some x
        → Keeps (sending r) x
    sending-Keeps r true room x h i ran rest = cc h
    sending-Keeps r false true x h i ran rest =
        subst (Keeps (sending r)) (some_injective ran) (sent-Keeps r) rest
    sending-Keeps r false false x h i ran rest = cc i

    leaving-Keeps :
        (wg : ℕ) (x : Goroutine × State)
        → s.wg ≡ wg
        → some (wg_done wg s) ≡ some x
        → Keeps leaving x
    unfolding wg_done
    leaving-Keeps zero x e ran rest =
        let (n, a, _) = rest active in absurd (omega (arith, a, e, h.counted))
    leaving-Keeps (suc n) x e ran rest =
        subst (Keeps leaving) (some_injective ran) (done-Keeps n e) rest

    pub goroutine-Keeps :
        (old : Goroutine) (x : Goroutine × State)
        → run_goroutine (length checkers) old s ≡ some x
        → Keeps old x
    unfolding run_goroutine send_result wg_done
    goroutine-Keeps (checking c) x ran rest =
        subst (Keeps (checking c)) (some_injective ran) (check-Keeps c) rest
    goroutine-Keeps (sending r) x ran rest =
        let (n, a, _) = rest active in
        let (m, c, _) = rest (pending (λ x. true)) in
        let (is_open, room) = ready n m a c in
        sending-Keeps r s.closed (ltb (length s.results) (length checkers)) x is_open room ran rest
    goroutine-Keeps leaving x ran rest = leaving-Keeps s.wg x refl ran rest
    goroutine-Keeps left x ran rest = cc ran
