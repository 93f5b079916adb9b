-- ===== src/Line/Readings.antt =====
-- The abstract view of a LINE user: the status and the time of the event that set it. Of two
-- readings the later one counts, and of two at the same time the one that arrives last.
use chuchu.Prelude.{
  ℤ, leb_ℤ, ◌≡◌, refl, ap, ◌∙◌, sym, ◌≢◌, ◌⊎◌, String, List, [], ◌∷◌, ◌++◌, Option, none, some,
  ◌==◌, if◌then◌else◌, arith, eq_iff,
}
use chuchu.Line.{Status, Event, status}

pub record Reading : Type 0 where
  pub status : Status
  pub at : ℤ

abbrev pub join : Option Reading → Option Reading → Option Reading
join none y = y
join (some x) none = some x
join (some x) (some y) = some (if leb_ℤ x.at y.at then y else x)

pub join-none : (x : Option Reading) → join x none ≡ x
join-none none = refl
join-none (some x) = refl

pub join_assoc : (x y z : Option Reading) → join (join x y) z ≡ join x (join y z)
join_assoc none y z = refl
join_assoc (some x) none z = refl
join_assoc (some x) (some y) none = refl
join_assoc (some x) (some y) (some z) = ground arith

pub join_idem : (x : Option Reading) → join x x ≡ x
join_idem none = refl
join_idem (some x) = ground arith

-- What an event says of a user.
abbrev pub reading_for : String → Event → Option Reading
reading_for u e =
    if e.user_id == u then some (record { status = status e; at = e.occurred_at_millis }) else none

-- What a batch of events says of a user.
unfoldable pub summary : String → List Event → Option Reading
summary u [] = none
summary u (e ∷ es) = join (reading_for u e) (summary u es)

pub summary-append :
    (u : String) (xs ys : List Event) → summary u (xs ++ ys) ≡ join (summary u xs) (summary u ys)
unfolding summary
summary-append u [] ys = refl
summary-append u (e ∷ es) ys =
    ap (join (reading_for u e)) (summary-append u es ys)
    ∙ sym (join_assoc (reading_for u e) (summary u es) (summary u ys))

-- Seeing a first part of the events and then all of them is seeing all of them.
pub summary_again :
    (u : String) (v : Option Reading) (xs ys : List Event)
    → join (join v (summary u xs)) (summary u (xs ++ ys)) ≡ join v (summary u (xs ++ ys))
summary_again u v xs ys =
    let p = summary u xs in
    let r = summary u ys in
    rw (summary-append u xs ys) (
      join_assoc v p (join p r)
      ∙ ap (join v) (sym (join_assoc p p r) ∙ ap (λ x. join x r) (join_idem p)))

-- Two events whose order of arrival does not matter.
abbrev pub Compatible : Event → Event → Type 0
Compatible a b =
    (a.user_id ≢ b.user_id) ⊎ (a.occurred_at_millis ≢ b.occurred_at_millis) ⊎ (status a ≡ status b)

join_comm :
    (u : String) (a b : Event)
    → Compatible a b
    → join (reading_for u a) (reading_for u b) ≡ join (reading_for u b) (reading_for u a)
join_comm u a b h = ground (arith, eq_iff a.user_id u, eq_iff b.user_id u)

-- The orders of arrival that differ from each other by exchanges of compatible neighbours.
pub data Reordered : List Event → List Event → Type 0 where
  same : (xs : List Event) → Reordered xs xs
  keep : (e : Event) {xs ys : List Event} → Reordered xs ys → Reordered (e ∷ xs) (e ∷ ys)
  swap : (a b : Event) (xs : List Event) → Compatible a b → Reordered (a ∷ b ∷ xs) (b ∷ a ∷ xs)
  trans : {xs ys zs : List Event} → Reordered xs ys → Reordered ys zs → Reordered xs zs

pub summary-Reordered :
    (u : String) {xs ys : List Event} → Reordered xs ys → summary u xs ≡ summary u ys
unfolding summary
summary-Reordered u (same xs) = refl
summary-Reordered u (keep e r) = ap (join (reading_for u e)) (summary-Reordered u r)
summary-Reordered u (swap a b xs h) =
    sym (join_assoc (reading_for u a) (reading_for u b) (summary u xs))
    ∙ ap (λ x. join x (summary u xs)) (join_comm u a b h)
    ∙ join_assoc (reading_for u b) (reading_for u a) (summary u xs)
summary-Reordered u (trans p q) = summary-Reordered u p ∙ summary-Reordered u q
