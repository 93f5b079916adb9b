-- ===== src/Prelude/Pages.antt =====
-- Filters and pages of lists, over the native numbers.
use Prim.Native.Nat.{ℕ, zero, suc}
use mathlib.Core.Path.{◌≡◌, refl, ap, sym, ◌∙◌}
use mathlib.Core.Bool.{Bool, true, false}
use mathlib.Core.Option.{some}
use mathlib.Core.Logic.{inl, inr}
use mathlib.Core.List.{List, [], ◌∷◌, map}
use chuchu.Prelude.Tests.{if◌then◌else◌, Bool-cases, some_injective}
use chuchu.Prelude.Lists.{length, get_elem?}

module _ {ℓ} {A : Type ℓ} where
  abbrev pub filter : (A → Bool) → List A → List A
  filter p [] = []
  filter p (x ∷ xs) = let rest = filter p xs in if p x then x ∷ rest else rest

  abbrev pub take : ℕ → List A → List A
  take zero xs = []
  take (suc n) [] = []
  take (suc n) (x ∷ xs) = x ∷ take n xs

  abbrev pub drop : ℕ → List A → List A
  drop zero xs = xs
  drop (suc n) [] = []
  drop (suc n) (x ∷ xs) = drop n xs

  -- the value stands somewhere in the list
  abbrev pub IsIn : A → List A → Type ℓ
  IsIn x xs = (i : ℕ) × (get_elem? xs i ≡ some x)

module _ {ℓ κ} {A : Type ℓ} {B : Type κ} (f : A → B) where
  pub map-take : (n : ℕ) (xs : List A) → map f (take n xs) ≡ take n (map f xs)
  map-take zero xs = refl
  map-take (suc n) [] = refl
  map-take (suc n) (x ∷ xs) = ap (λ ys. f x ∷ ys) (map-take n xs)

  pub map-drop : (n : ℕ) (xs : List A) → map f (drop n xs) ≡ drop n (map f xs)
  map-drop zero xs = refl
  map-drop (suc n) [] = refl
  map-drop (suc n) (x ∷ xs) = map-drop n xs

  pub length-map : (xs : List A) → length (map f xs) ≡ length xs
  length-map [] = refl
  length-map (x ∷ xs) = ap suc (length-map xs)

  pub map-filter :
      (p : A → Bool) (q : B → Bool) (xs : List A)
      → ((x : A) → p x ≡ q (f x))
      → map f (filter p xs) ≡ filter q (map f xs)
  map-filter p q [] h = refl
  map-filter p q (x ∷ xs) h = elim (Bool-cases (p x)) [
    | inl kept ↦
        let kept' : q (f x) ≡ true = sym (h x) ∙ kept in
        rw (kept, kept') (ap (λ ys. f x ∷ ys) (map-filter p q xs h))
    | inr left ↦
        let left' : q (f x) ≡ false = sym (h x) ∙ left in rw (left, left') (map-filter p q xs h)
  ]

  pub IsIn-map : {x : A} (xs : List A) → IsIn x xs → IsIn (f x) (map f xs)
  IsIn-map [] (i, h) = cc h
  IsIn-map (y ∷ xs) (zero, h) = (zero, ap some (ap f (some_injective h)))
  IsIn-map (y ∷ xs) (suc i, h) = let (k, e) = IsIn-map xs (i, h) in (suc k, e)

  pub get_elem?-map_inv :
      {y : B} (xs : List A) (i : ℕ)
      → get_elem? (map f xs) i ≡ some y
      → (x : A) × (get_elem? xs i ≡ some x) × (f x ≡ y)
  get_elem?-map_inv [] i h = cc h
  get_elem?-map_inv (x ∷ xs) zero h = (x, refl, some_injective h)
  get_elem?-map_inv (x ∷ xs) (suc i) h = get_elem?-map_inv xs i h
