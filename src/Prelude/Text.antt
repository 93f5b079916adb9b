-- ===== src/Prelude/Text.antt =====
-- `strings.TrimSpace` and `strings.HasPrefix` on the native texts.
use Prim.Native.Char.{Char, code}
use Prim.Native.String.{String}
use mathlib.Core.Path.{◌≡◌, refl, ◌∙◌, ap}
use mathlib.Core.Logic.{inl, inr}
use mathlib.Core.Bool.{Bool, true, false, ◌&&◌, ◌||◌}
use mathlib.Core.Option.{Option, none, some}
use mathlib.Core.List.{List, [], ◌∷◌}
use native.Mathlib.Omega.{arith}
use text.Mathlib.Text.{◌==◌}
use text.Mathlib.TextEquality.{eq_iff}
use chuchu.Prelude.Tests.{leb, eqb, Bool-cases, if◌then◌else◌}

-- `unicode.IsSpace`
abbrev pub is_space : Char → Bool
is_space c =
    let n = code c in
    (leb 9 n && leb n 13)
    || eqb n 32
    || eqb n 0x85
    || eqb n 0xa0
    || eqb n 0x1680
    || (leb 0x2000 n && leb n 0x200a)
    || eqb n 0x2028
    || eqb n 0x2029
    || eqb n 0x202f
    || eqb n 0x205f
    || eqb n 0x3000

abbrev pub is_nil : String → Bool
is_nil String.[] = true
is_nil (String.◌∷◌ c s) = false

trim_left : String → String
trim_left String.[] = String.[]
trim_left (String.◌∷◌ c s) = let rest = trim_left s in if is_space c then rest else String.◌∷◌ c s

trim_right : String → String
trim_right String.[] = String.[]
trim_right (String.◌∷◌ c s) =
    let rest = trim_right s in if is_nil rest && is_space c then String.[] else String.◌∷◌ c rest

unfoldable pub trim_space : String → String
unfolding trim_left trim_right
trim_space s = trim_right (trim_left s)

-- Every character is white space.
abbrev pub is_blank : String → Bool
is_blank String.[] = true
is_blank (String.◌∷◌ c s) = is_space c && is_blank s

is_blank-trim_left : (s : String) → is_blank (trim_left s) ≡ is_blank s
unfolding trim_left
is_blank-trim_left String.[] = refl
is_blank-trim_left (String.◌∷◌ c s) = ground (arith, is_blank-trim_left s)

is_nil-trim_right : (s : String) → is_nil (trim_right s) ≡ is_blank s
unfolding trim_right
is_nil-trim_right String.[] = refl
is_nil-trim_right (String.◌∷◌ c s) = ground (arith, is_nil-trim_right s)

eq_nil : (s : String) → (s == "") ≡ is_nil s
eq_nil String.[] = refl
eq_nil (String.◌∷◌ c s) = elim (Bool-cases (String.◌∷◌ c s == "")) [
  | inl e ↦ cc (ap is_nil ((eq_iff (String.◌∷◌ c s) "").0 e))
  | inr e ↦ e
]

-- `strings.TrimSpace(s) == ""` holds exactly of the texts of white space alone.
pub trim_space-eq_nil : (s : String) → (trim_space s == "") ≡ is_blank s
unfolding trim_space
trim_space-eq_nil s =
    eq_nil (trim_right (trim_left s)) ∙ is_nil-trim_right (trim_left s) ∙ is_blank-trim_left s

-- A Go map with string keys, as a literal of pairs; `none` for a missing key.
module _ {ℓ} {V : Type ℓ} where
  abbrev pub lookup : String → List (String × V) → Option V
  lookup k [] = none
  lookup k ((j, v) ∷ m) = if j == k then some v else lookup k m

-- `strings.HasPrefix`
abbrev pub has_prefix : String → String → Bool
has_prefix s String.[] = true
has_prefix String.[] (String.◌∷◌ p ps) = false
has_prefix (String.◌∷◌ c cs) (String.◌∷◌ p ps) = eqb (code c) (code p) && has_prefix cs ps
