-- ===== src/Httpx/RequestId/Distinct.antt =====
-- The ids of internal/httpx/requestid.go tell requests apart as well as the random bytes do.
use Prim.Native.Char.{Char, code}
use Prim.Native.String.{◌++◌ as str_append}
use Prim.Native.String.append
use chuchu.Prelude.{
  ℕ, suc, ◌+◌, ◌*◌, ◌-◌, ◌/◌, ◌%◌, ◌<◌, ◌≤◌, zero, Bool, eqb, Bool-cases, inl, inr, ◌&&◌, ℤ, ltb,
  ◌≡◌, refl, ap, ◌∙◌, sym, ◌≢◌, String, List, [], ◌∷◌, All, if◌then◌else◌, arith, true, false,
}
use native.Mathlib.Decide.{dec_lt}
use mathlib.Core.Bool.{false≢true, and_assoc}
use chuchu.Apperr.{GoError}
use chuchu.Effect.{ok, err}
use chuchu.Httpx.RequestId.{hex_digit, hex_encode, digits, decimal, new_request_id}

-- The value of a hexadecimal digit.
hex_value : Char → ℕ
hex_value c = if ltb (code c) 58 then code c - 48 else code c - 87

-- The first `n` digits have their values.
checks : ℕ → Bool
unfolding hex_value
checks zero = true
checks (suc n) = eqb (hex_value (hex_digit n)) n && checks n

checks_lem : (n v : ℕ) → checks n ≡ true → v < n → hex_value (hex_digit v) ≡ v
unfolding checks hex_value
checks_lem zero v h lt = absurd (omega arith)
checks_lem (suc n) v h lt = elim (dec_lt v n) [
  | yes below ↦ checks_lem n v (ground arith) below
  | no last ↦ let same : v ≡ n = omega arith in rw same (ground arith)
]

hex_value-hex_digit : (v : ℕ) → v < 16 → hex_value (hex_digit v) ≡ v
unfolding checks hex_value
hex_value-hex_digit v h = checks_lem 16 v refl h

-- `hex.DecodeString`, on texts of an even length
unfoldable pub hex_decode : String → List ℕ
unfolding hex_value
hex_decode String.[] = []
hex_decode (String.◌∷◌ c String.[]) = []
hex_decode (String.◌∷◌ c (String.◌∷◌ d s)) = (hex_value c * 16 + hex_value d) ∷ hex_decode s

abbrev pub IsByte : ℕ → Type 0
IsByte b = b < 256

hex_decode-hex_encode : (bs : List ℕ) → All IsByte bs → hex_decode (hex_encode bs) ≡ bs
unfolding hex_decode hex_encode
hex_decode-hex_encode [] h = refl
hex_decode-hex_encode (b ∷ bs) h =
    rw
      (
        hex_value-hex_digit (b / 16) (omega (arith, h.0)),
        hex_value-hex_digit (b % 16) (omega arith),
        hex_decode-hex_encode bs h.1,
      )
      (ap (λ x. x ∷ bs) (omega arith))

-- No character is above `f`.
is_hex : String → Bool
is_hex String.[] = true
is_hex (String.◌∷◌ c s) = ltb (code c) 103 && is_hex s

digits_below : ℕ → Bool
digits_below zero = true
digits_below (suc n) = ltb (code (hex_digit n)) 103 && digits_below n

digits_below_lem : (n v : ℕ) → digits_below n ≡ true → v < n → ltb (code (hex_digit v)) 103 ≡ true
unfolding digits_below
digits_below_lem zero v h lt = absurd (omega arith)
digits_below_lem (suc n) v h lt = elim (dec_lt v n) [
  | yes below ↦ digits_below_lem n v (ground arith) below
  | no last ↦ let same : v ≡ n = omega arith in rw same (ground arith)
]

hex_digit-below : (v : ℕ) → v < 16 → ltb (code (hex_digit v)) 103 ≡ true
unfolding digits_below
hex_digit-below v h = digits_below_lem 16 v refl h

is_hex-hex_encode : (bs : List ℕ) → All IsByte bs → is_hex (hex_encode bs) ≡ true
unfolding is_hex hex_encode
is_hex-hex_encode [] h = refl
is_hex-hex_encode (b ∷ bs) h =
    rw (hex_digit-below (b / 16) (omega (arith, h.0)), hex_digit-below (b % 16) (omega arith))
      (is_hex-hex_encode bs h.1)

is_hex-append : (s t : String) → is_hex (str_append s t) ≡ (is_hex s && is_hex t)
unfolding is_hex
is_hex-append String.[] t = ap is_hex (λ i. append.nil t i)
is_hex-append (String.◌∷◌ c s) t =
    ap is_hex (λ i. append.cons c s t i)
    ∙ ap (λ b. ltb (code c) 103 && b) (is_hex-append s t)
    ∙ sym (and_assoc (ltb (code c) 103) (is_hex s) (is_hex t))

is_hex-fallback : (e : GoError) (t : ℤ) → is_hex (new_request_id (err e) t) ≡ false
unfolding is_hex new_request_id
is_hex-fallback e t = is_hex-append "fallback-" (decimal t)

-- More rounds than the number change nothing.
digits-enough : (k l n : ℕ) (out : String) → n < k → n < l → digits k n out ≡ digits l n out
digits-enough zero l n out h i = absurd (omega arith)
digits-enough (suc k) zero n out h i = absurd (omega arith)
digits-enough (suc k) (suc l) n out h i = elim (Bool-cases (ltb n 10)) [
  | inl small ↦ rw small refl
  | inr large ↦
      let ten : 10 ≤ n = ground arith in
      rw large (digits-enough k l (n / 10) _ (omega arith) (omega arith))
]

-- Requests whose random bytes differ have different ids, and no id of random bytes is one that was
-- made from the clock, or empty.
pub new_request_id-distinct :
    (bs cs : List ℕ) (e : GoError) (t u : ℤ)
    → All IsByte bs
    → All IsByte cs
    → bs ≢ cs
    → bs ≢ []
    → (new_request_id (ok bs) t ≢ new_request_id (ok cs) u)
      × (new_request_id (ok bs) t ≢ new_request_id (err e) u)
      × (new_request_id (ok bs) t ≢ "")
unfolding new_request_id hex_decode
new_request_id-distinct bs cs e t u p q ne full = (
  λ h. ne (sym (hex_decode-hex_encode bs p) ∙ ap hex_decode h ∙ hex_decode-hex_encode cs q),
  λ h. true≢false (sym (is_hex-hex_encode bs p) ∙ ap is_hex h ∙ is_hex-fallback e u),
  λ h. full (sym (hex_decode-hex_encode bs p) ∙ ap hex_decode h),
)
  where
    true≢false : true ≢ false
    true≢false h = false≢true (sym h)
