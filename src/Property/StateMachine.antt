-- ===== src/Property/StateMachine.antt =====
-- The state machine of internal/property/status.go against a relation that lists its edges.
use mathlib.Core.Option
use mathlib.Core.Bool.{false≢true}
use chuchu.Prelude.{
  ◌≢◌, sym, ◌∙◌, List, [], ◌∷◌, lookup, ◌≡◌, ◌↔◌, ◌⊎◌, inl, inr, Bool, true, false, ◌==◌, eq_iff,
  Bool-cases,
}
use chuchu.Property.{
  Status, vacant, occupied, renovating, delisted, status_valid, transitions, can_transition,
}

-- The diagram: the source's two business rules are that `occupied` and `delisted` go to `vacant` only.
pub data Edge (a b : Status) : Type 0 where
  let_out : a ≡ vacant → b ≡ occupied → Edge a b
  renovate : a ≡ vacant → b ≡ renovating → Edge a b
  delist : a ≡ vacant → b ≡ delisted → Edge a b
  move_out : a ≡ occupied → b ≡ vacant → Edge a b
  finish : a ≡ renovating → b ≡ vacant → Edge a b
  abandon : a ≡ renovating → b ≡ delisted → Edge a b
  relist : a ≡ delisted → b ≡ vacant → Edge a b

vacant≢occupied : vacant ≢ occupied
vacant≢occupied h = false≢true ((eq_iff vacant occupied).1 h)

vacant≢renovating : vacant ≢ renovating
vacant≢renovating h = false≢true ((eq_iff vacant renovating).1 h)

vacant≢delisted : vacant ≢ delisted
vacant≢delisted h = false≢true ((eq_iff vacant delisted).1 h)

renovating≢delisted : renovating ≢ delisted
renovating≢delisted h = false≢true ((eq_iff renovating delisted).1 h)

renovating≢occupied : renovating ≢ occupied
renovating≢occupied h = false≢true ((eq_iff renovating occupied).1 h)

-- What a lookup that reads `true` has found.
abbrev Listed : List (Status × Bool) → Status → Type 0
Listed [] b = ⊥
Listed ((j, v) ∷ row) b = (j ≡ b) ⊎ Listed row b

listed :
    (row : List (Status × Bool)) (b : Status)
    → Option.get_or (lookup b row) false ≡ true
    → Listed row b
listed [] b h = cc
listed ((j, v) ∷ row) b h = elim (Bool-cases (j == b)) [
  | inl same ↦ inl ((eq_iff j b).0 same)
  | inr other ↦ inr (listed row b (rw other at h))
]

abbrev Row : List (Status × List (Status × Bool)) → Status → Status → Type 0
Row [] a b = ⊥
Row ((j, row) ∷ rows) a b = ((j ≡ a) × Listed row b) ⊎ Row rows a b

Row-found :
    (rows : List (Status × List (Status × Bool))) (a b : Status)
    → Option.get_or (lookup b (Option.get_or (lookup a rows) [])) false ≡ true
    → Row rows a b
Row-found [] a b h = cc
Row-found ((j, row) ∷ rows) a b h = elim (Bool-cases (j == a)) [
  | inl same ↦ inl ((eq_iff j a).0 same, listed row b (rw same at h))
  | inr other ↦ inr (Row-found rows a b (rw other at h))
]

Edge_of_Row : {a b : Status} → Row transitions a b → Edge a b
Edge_of_Row (inl (p, inl q)) = let_out (sym p) (sym q)
Edge_of_Row (inl (p, inr (inl q))) = renovate (sym p) (sym q)
Edge_of_Row (inl (p, inr (inr (inl q)))) = delist (sym p) (sym q)
Edge_of_Row (inr (inl (p, inl q))) = move_out (sym p) (sym q)
Edge_of_Row (inr (inr (inl (p, inl q)))) = finish (sym p) (sym q)
Edge_of_Row (inr (inr (inl (p, inr (inl q))))) = abandon (sym p) (sym q)
Edge_of_Row (inr (inr (inr (inl (p, inl q))))) = relist (sym p) (sym q)
Edge_of_Row (inl (p, inr (inr (inr x)))) = absurd x
Edge_of_Row (inr (inl (p, inr x))) = absurd x
Edge_of_Row (inr (inr (inl (p, inr (inr x))))) = absurd x
Edge_of_Row (inr (inr (inr (inl (p, inr x))))) = absurd x
Edge_of_Row (inr (inr (inr (inr x)))) = absurd x

can_transition_sound : (a b : Status) → can_transition a b ≡ true → Edge a b
unfolding can_transition
can_transition_sound a b h = Edge_of_Row (Row-found transitions a b h)

can_transition_complete : {a b : Status} → Edge a b → can_transition a b ≡ true
unfolding can_transition
can_transition_complete (let_out p q) = rw (p, q)
can_transition_complete (renovate p q) = rw (p, q)
can_transition_complete (delist p q) = rw (p, q)
can_transition_complete (move_out p q) = rw (p, q)
can_transition_complete (finish p q) = rw (p, q)
can_transition_complete (abandon p q) = rw (p, q)
can_transition_complete (relist p q) = rw (p, q)

-- `CanTransition` permits exactly the seven moves of the diagram, for any two texts.
pub can_transition_iff : (a b : Status) → (can_transition a b ≡ true) ↔ Edge a b
can_transition_iff a b = (can_transition_sound a b, can_transition_complete)

not_Edge_self : {a : Status} → ¬ Edge a a
not_Edge_self (let_out p q) = vacant≢occupied (sym p ∙ q)
not_Edge_self (renovate p q) = vacant≢renovating (sym p ∙ q)
not_Edge_self (delist p q) = vacant≢delisted (sym p ∙ q)
not_Edge_self (move_out p q) = vacant≢occupied (sym q ∙ p)
not_Edge_self (finish p q) = vacant≢renovating (sym q ∙ p)
not_Edge_self (abandon p q) = renovating≢delisted (sym p ∙ q)
not_Edge_self (relist p q) = vacant≢delisted (sym q ∙ p)

pub Edge-valid : {a b : Status} → Edge a b → (status_valid a ≡ true) × (status_valid b ≡ true)
unfolding status_valid
Edge-valid (let_out p q) = (rw p, rw q)
Edge-valid (renovate p q) = (rw p, rw q)
Edge-valid (delist p q) = (rw p, rw q)
Edge-valid (move_out p q) = (rw p, rw q)
Edge-valid (finish p q) = (rw p, rw q)
Edge-valid (abandon p q) = (rw p, rw q)
Edge-valid (relist p q) = (rw p, rw q)

-- An occupied or a delisted property moves to vacant only.
pub only_vacant : {a b : Status} → Edge a b → (a ≡ occupied) ⊎ (a ≡ delisted) → b ≡ vacant
only_vacant (move_out p q) h = q
only_vacant (finish p q) h = q
only_vacant (relist p q) h = q
only_vacant (let_out p q) (inl h) = absurd (vacant≢occupied (sym p ∙ h))
only_vacant (let_out p q) (inr h) = absurd (vacant≢delisted (sym p ∙ h))
only_vacant (renovate p q) (inl h) = absurd (vacant≢occupied (sym p ∙ h))
only_vacant (renovate p q) (inr h) = absurd (vacant≢delisted (sym p ∙ h))
only_vacant (delist p q) (inl h) = absurd (vacant≢occupied (sym p ∙ h))
only_vacant (delist p q) (inr h) = absurd (vacant≢delisted (sym p ∙ h))
only_vacant (abandon p q) (inl h) = absurd (renovating≢occupied (sym p ∙ h))
only_vacant (abandon p q) (inr h) = absurd (renovating≢delisted (sym p ∙ h))

-- No status moves to itself, and both ends of a permitted move are valid statuses.
pub can_transition_rules :
    (a b : Status)
    → can_transition a b ≡ true
    → (a ≢ b) × (status_valid a ≡ true) × (status_valid b ≡ true)
can_transition_rules a b h =
    let e = can_transition_sound a b h in
    let (va, vb) = Edge-valid e in (λ p. not_Edge_self (rw p at e), va, vb)
