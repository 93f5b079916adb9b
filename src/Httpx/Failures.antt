-- ===== src/Httpx/Failures.antt =====
-- The statuses that the errors of a call are answered by, as a set of statuses that is closed under the
-- ways in which Go code hands errors on.
use chuchu.Prelude.{
  ℕ, eqb, ◌≡◌, refl, inl, inr, Bool, true, Bool-cases, any, all, List, [], ◌∷◌, arith,
}
use chuchu.Apperr.{GoError, http_status, as_error}
use chuchu.Effect.{Result, ok, err, Exec, continue, and_then, map_err}
use chuchu.Httpx.{degraded}

-- The status by which `WriteError` answers an error.
unfoldable pub error_status : GoError → ℕ
error_status e = http_status (degraded (as_error e)).code

abbrev pub has : List ℕ → ℕ → Bool
has codes n = any (λ c. eqb n c) codes

-- If the call fails, its error is answered by one of these.
abbrev pub Fails : {A : Type 0} → List ℕ → Result A → Type 0
Fails codes (ok a) = Unit
Fails codes (err e) = has codes (error_status e) ≡ true

has_mono : (xs ys : List ℕ) (n : ℕ) → all (has ys) xs ≡ true → has xs n ≡ true → has ys n ≡ true
has_mono [] ys n h k = cc
has_mono (x ∷ xs) ys n h k = elim (Bool-cases (eqb n x)) [
  | inl same ↦ let e : n ≡ x = ground arith in rw e (ground arith)
  | inr other ↦ has_mono xs ys n (ground arith) (rw other at k)
]

module _ {A : Type 0} where
  pub Fails-mono :
      (xs ys : List ℕ) (r : Result A) → all (has ys) xs ≡ true → Fails xs r → Fails ys r
  Fails-mono xs ys (ok a) h k = tt
  Fails-mono xs ys (err e) h k = has_mono xs ys (error_status e) h k

  pub Fails-map_err :
      (codes : List ℕ) (g : GoError → GoError) (r : Result A)
      → ((e : GoError) → r ≡ err e → has codes (error_status (g e)) ≡ true)
      → Fails codes (map_err g r)
  Fails-map_err codes g (ok a) h = tt
  Fails-map_err codes g (err e) h = h e refl

module _ {A B : Type 0} where
  pub Fails-and_then :
      (codes : List ℕ) (r : Result A) (f : A → Result B)
      → Fails codes r
      → ((a : A) → r ≡ ok a → Fails codes (f a))
      → Fails codes (and_then r f)
  Fails-and_then codes (ok a) f h k = k a refl
  Fails-and_then codes (err e) f h k = h

module _ {S A B : Type 0} where
  pub Fails-continue :
      (codes : List ℕ) (r : Result A) (f : A → Exec S B) (s : S)
      → Fails codes r
      → ((a : A) → r ≡ ok a → Fails codes (f a s).0)
      → Fails codes (continue r f s).0
  Fails-continue codes (ok a) f s h k = k a refl
  Fails-continue codes (err e) f s h k = h
