-- ===== src/Line/Latest.antt =====
-- Which event of a batch the summary of a LINE user is: the last to arrive of the latest ones.
use chuchu.Prelude.{
  ℤ, leb_ℤ, leb_ℤ→le, ◌≤ℤ◌, ◌<ℤ◌, ◌≡◌, refl, ap, ◌∙◌, inl, inr, false, String, List, [], ◌∷◌, ◌++◌,
  Option, none, some, some_injective, Option-cases, arith, Bool-cases, eq_iff, All,
}
use mathlib.Core.Path.{subst}
use chuchu.Line.{Event}
use chuchu.Line.Readings.{Reading, join, reading_for, summary}

-- An event of the user is no later than `r`, or is earlier.
abbrev pub NotAfter : String → Reading → Event → Type 0
NotAfter u r e = e.user_id ≡ u → e.occurred_at_millis ≤ℤ r.at

abbrev pub Before : String → Reading → Event → Type 0
Before u r e = e.user_id ≡ u → e.occurred_at_millis <ℤ r.at

-- `r` is what an event of the list says of the user: no earlier arrival is later than it, and every
-- later arrival is earlier.
pub record IsLatest (u : String) (r : Reading) (es : List Event) : Type 0 where
  pub earlier : List Event
  pub event : Event
  pub later : List Event
  pub split : es ≡ earlier ++ event ∷ later
  pub says : reading_for u event ≡ some r
  pub not_after : All (NotAfter u r) earlier
  pub before : All (Before u r) later

at_most : (u : String) (r : Reading) (e : Event) → Before u r e → NotAfter u r e
at_most u r e h p = let q = h p in omega arith

All-map :
    {A : Type 0} {P Q : A → Type 0} → ((a : A) → P a → Q a) → (xs : List A) → All P xs → All Q xs
All-map f [] h = tt
All-map f (x ∷ xs) h = (f x h.0, All-map f xs h.1)

All-join :
    {A : Type 0} (P : A → Type 0) (xs : List A) (x : A) (ys : List A)
    → All P xs
    → P x
    → All P ys
    → All P (xs ++ x ∷ ys)
All-join P [] x ys h p k = (p, k)
All-join P (y ∷ xs) x ys h p k = (h.0, All-join P xs x ys h.1 p k)

reading_at :
    (u : String) (e : Event) (r : Reading) → reading_for u e ≡ some r → r.at ≡ e.occurred_at_millis
reading_at u e r h = ground arith

other_user : (u : String) (e : Event) → reading_for u e ≡ none → ¬ (e.user_id ≡ u)
other_user u e h p = ground (arith, eq_iff e.user_id u)

no_events : (u : String) (r : Reading) (es : List Event) → summary u es ≡ none → All (Before u r) es
unfolding summary
no_events u r [] h = tt
no_events u r (e ∷ es) h = elim (Option-cases (reading_for u e)) [
  | inl other ↦ (λ p. absurd (other_user u e other p), no_events u r es (rw other at h))
  | inr (x, q) ↦ elim (Option-cases (summary u es)) [
    | inl nothing ↦ cc (rw (q, nothing) at h)
    | inr (y, q') ↦ cc (rw (q, q') at h)
  ]
]

module _ (u : String) (e : Event) (es : List Event) {r : Reading} where
  -- An earlier arrival that is no later changes nothing.
  after_event : NotAfter u r e → IsLatest u r es → IsLatest u r (e ∷ es)
  after_event h l = record {
    earlier = e ∷ l.earlier;
    event = l.event;
    later = l.later;
    split = ap (λ xs. e ∷ xs) l.split;
    says = l.says;
    not_after = (h, l.not_after);
    before = l.before;
  }

  -- The first event counts if all that the others say is earlier.
  first_event : reading_for u e ≡ some r → All (Before u r) es → IsLatest u r (e ∷ es)
  first_event says before = record {
    earlier = [];
    event = e;
    later = es;
    split = refl;
    says = says;
    not_after = tt;
    before = before;
  }

-- All events of a list are before a reading that is after their latest.
All-Before :
    (u : String) (x y : Reading) (es : List Event)
    → IsLatest u y es
    → y.at <ℤ x.at
    → All (Before u x) es
All-Before u x y es l h = rw l.split (
    All-join (Before u x) l.earlier l.event l.later
      (All-map (λ e k p. let q = k p in omega arith) l.earlier l.not_after)
      (λ _. subst (λ n. n <ℤ x.at) (reading_at u l.event y l.says) h)
      (All-map (λ e k p. let q = k p in omega arith) l.later l.before))

lt_of_not_leb_ℤ : (a b : ℤ) → leb_ℤ a b ≡ false → b <ℤ a
lt_of_not_leb_ℤ a b h = ground arith

IsLatest-step :
    (u : String) (e : Event) (es : List Event) (r : Reading) (a b : Option Reading)
    → reading_for u e ≡ a
    → summary u es ≡ b
    → ((y : Reading) → b ≡ some y → IsLatest u y es)
    → join a b ≡ some r
    → IsLatest u r (e ∷ es)
IsLatest-step u e es r none b p q ih h =
    after_event u e es (λ s. absurd (other_user u e p s)) (ih r h)
IsLatest-step u e es r (some x) none p q ih h = first_event u e es (p ∙ h) (no_events u r es q)
IsLatest-step u e es r (some x) (some y) p q ih h = elim (Bool-cases (leb_ℤ x.at y.at)) [
  | inl le ↦
      let same : y ≡ r = some_injective (rw le at h) in
      subst (λ z. IsLatest u z (e ∷ es)) same
        (after_event u e es
          (λ _. subst (λ n. n ≤ℤ y.at) (reading_at u e x p) (leb_ℤ→le x.at y.at le)) (ih y refl))
  | inr gt ↦
      let same : x ≡ r = some_injective (rw gt at h) in
      subst (λ z. IsLatest u z (e ∷ es)) same
        (first_event u e es p (All-Before u x y es (ih y refl) (lt_of_not_leb_ℤ x.at y.at gt)))
]

-- The summary of a user is what the last to arrive of the user's latest events says.
pub summary-IsLatest :
    (u : String) (es : List Event) (r : Reading) → summary u es ≡ some r → IsLatest u r es
unfolding summary
summary-IsLatest u [] r h = cc
summary-IsLatest u (e ∷ es) r h =
    IsLatest-step u e es r (reading_for u e) (summary u es) refl refl (summary-IsLatest u es) h
