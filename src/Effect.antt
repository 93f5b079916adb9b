-- ===== src/Effect.antt =====
-- Go functions that return `(T, error)`, alone and over a state that they may change: what was
-- written before an error stays written.
use chuchu.Prelude.{◌≡◌, refl}
use chuchu.Apperr.{GoError}

pub data Result {ℓ} (A : Type ℓ) : Type ℓ where
  ok : A → Result A
  err : GoError → Result A

abbrev pub Exec : Type 0 → Type 0 → Type 0
Exec S A = S → Result A × S

module _ {S A : Type 0} where
  abbrev pub pure : A → Exec S A
  pure a s = (ok a, s)

  abbrev pub raise : GoError → Exec S A
  raise e s = (err e, s)

  -- A pure call that may fail, among calls that change the state.
  abbrev pub lift : Result A → Exec S A
  lift r s = (r, s)

module _ {S A B : Type 0} where
  abbrev pub continue : Result A → (A → Exec S B) → Exec S B
  continue (ok a) f s = f a s
  continue (err e) f s = (err e, s)

  infixl 5 ◌>>=◌ ◌>>◌
  abbrev pub ◌>>=◌ : Exec S A → (A → Exec S B) → Exec S B
  ◌>>=◌ m f s = continue (m s).0 f (m s).1

  abbrev pub ◌>>◌ : Exec S A → Exec S B → Exec S B
  m >> n = m >>= λ _. n

-- `if err != nil { return nil, g(err) }`
module _ {A B : Type 0} where
  abbrev pub and_then : Result A → (A → Result B) → Result B
  and_then (ok a) f = f a
  and_then (err e) f = err e

module _ {A : Type 0} where
  abbrev pub map_err : (GoError → GoError) → Result A → Result A
  map_err g (ok a) = ok a
  map_err g (err e) = err (g e)

module _ {A B : Type 0} where
  pub and_then-eq_ok :
      (r : Result A) (f : A → Result B) {b : B}
      → and_then r f ≡ ok b
      → (a : A) × (r ≡ ok a) × (f a ≡ ok b)
  and_then-eq_ok (ok a) f h = (a, refl, h)
  and_then-eq_ok (err e) f h = cc

module _ {A : Type 0} where
  pub map_err-eq_ok : (g : GoError → GoError) (r : Result A) {a : A} → map_err g r ≡ ok a → r ≡ ok a
  map_err-eq_ok g (ok a) h = h
  map_err-eq_ok g (err e) h = cc

  pub ok_injective : {a b : A} → ok a ≡ ok b → a ≡ b
  ok_injective h = cc

module _ {S A B : Type 0} where
  -- A continuation that does not touch the state.
  pub continue-lift :
      (r : Result A) (f : A → Result B) (s : S) → continue r (λ a. lift (f a)) s ≡ (and_then r f, s)
  continue-lift (ok a) f s = refl
  continue-lift (err e) f s = refl

module _ {S A B : Type 0} where
  -- A chain of calls that succeeds has a first call that does, and goes on from it.
  pub continue-eq_ok :
      (r : Result A) (f : A → Exec S B) (s : S) {b : B}
      → (continue r f s).0 ≡ ok b
      → (a : A) × (r ≡ ok a) × (continue r f s ≡ f a s)
  continue-eq_ok (ok a) f s h = (a, refl, refl)
  continue-eq_ok (err e) f s h = cc
