-- ===== src/Tests/Indexed.antt =====
-- The table of the small world, and its index on the address.
use chuchu.Tests.World.{world, Table, find, same_address, find_address, clash, insert_row, memory}
use chuchu.Prelude.{
  ℕ, ◌≡◌, refl, ap, sym, ◌∙◌, some_injective, Option-cases, ◌⊎◌, inl, inr, eqb, [], ◌∷◌, Option,
  none, some, Bool-cases, true, ◌==◌,
}
use text.Mathlib.TextPositions.{eq_refl}
use mathlib.Core.Bool.{false≢true}
use chuchu.Apperr.{GoError, pg_error}
use chuchu.Effect.{err}
use chuchu.Property.Pgrepo.{PropertyModel, as_pg_error, is_unique_violation}
use chuchu.Property.Pgrepo.Refines.{fit}
use chuchu.Property.Pgrepo.Indexes.{IsIndexed, columns}

same_address_self : (x m : PropertyModel world) → columns x ≡ columns m → same_address x m ≡ true
same_address_self x m h =
    rw
      (
        ap (λ t. t == m.city) (ap (λ c. c.0) h) ∙ eq_refl m.city,
        ap (λ t. t == m.district) (ap (λ c. c.1) h) ∙ eq_refl m.district,
        ap (λ t. t == m.street_address) (ap (λ c. c.2) h) ∙ eq_refl m.street_address,
        ap (λ t. t == m.floor) (ap (λ c. c.3) h) ∙ eq_refl m.floor,
        ap (λ t. t == m.room_no) (ap (λ c. c.4) h) ∙ eq_refl m.room_no,
      )
      refl

find-cons :
    (x : PropertyModel world) (xs : Table) (j : ℕ) (n : PropertyModel world)
    → find (x ∷ xs) j ≡ some n
    → (fit world x ≡ n) ⊎ (find xs j ≡ some n)
find-cons x xs j n h = elim (Bool-cases (eqb x.id j)) [
  | inl here ↦ inl (some_injective (rw here at h))
  | inr other ↦ inr (rw other at h)
]

address_found :
    (s : Table) (j : ℕ) (m n : PropertyModel world)
    → find s j ≡ some n
    → columns n ≡ columns m
    → (x : PropertyModel world) × (find_address s m ≡ some x)
address_found [] j m n h same = cc h
address_found (x ∷ xs) j m n h same = elim (Bool-cases (same_address x m)) [
  | inl here ↦ (x, rw here refl)
  | inr other ↦ elim (find-cons x xs j n h) [
    | inl here ↦ absurd (false≢true (sym other ∙ same_address_self x m (ap columns here ∙ same)))
    | inr later ↦ let (y, e) = address_found xs j m n later same in (y, rw other e)
  ]
]

clash_found :
    (s : Table) (m x : PropertyModel world)
    → find_address s m ≡ some x
    → (y : PropertyModel world) × (clash s m ≡ some y)
clash_found s m x h = elim (Option-cases (find s m.id)) [
  | inl fresh ↦ (x, rw fresh h)
  | inr (y, e) ↦ (y, rw e refl)
]

pub memory-IsIndexed : IsIndexed world find memory
memory-IsIndexed = record {
  refuses = λ m n j s taken same.
      let (x, here) = address_found s j m n taken same in
      let (y, e) = clash_found s m x here in rw e ((λ k. refl), (pg_error (λ k. "23505"), refl));
}

insert_row-reported :
    (found : Option (PropertyModel world)) (m : PropertyModel world) (s : Table) (e : GoError)
    → (insert_row found m s).0 ≡ err e
    → is_unique_violation (as_pg_error e) ≡ true
unfolding as_pg_error
insert_row-reported none m s e h = cc
insert_row-reported (some x) m s e h =
    let same : pg_error (λ k. "23505") ≡ e = cc in
    ap (λ e. is_unique_violation (as_pg_error e)) (sym same)

pub memory-reported :
    (m : PropertyModel world) (s : Table) (e : GoError)
    → (memory.insert m s).0 ≡ err e
    → is_unique_violation (as_pg_error e) ≡ true
memory-reported m s = insert_row-reported (clash s m) m s
