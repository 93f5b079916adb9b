-- ===== src/Httpx/RequestId.antt =====
-- internal/httpx/requestid.go: `newRequestID`, with what `rand.Read` filled the buffer with, and the
-- clock, as arguments. `hex.EncodeToString` and the verb `%d` of `fmt.Sprintf` are written out.
pub mod Distinct
use Prim.Native.Char.{Char}
use Prim.Native.String.{char_at}
use Prim.Native.String.{◌++◌ as str_append}
use chuchu.Prelude.{
  ℕ, suc, zero, ◌/◌, ◌%◌, ◌-◌, ℤ, pos, negsuc, ltb, String, List, [], ◌∷◌, Option, none, some,
  if◌then◌else◌,
}
use chuchu.Effect.{Result, ok, err}

-- `hextable[v]`
abbrev pub hex_digit : ℕ → Char
hex_digit v = char_at "0123456789abcdef" v

-- `hex.EncodeToString`: the high and the low half of each byte
unfoldable pub hex_encode : List ℕ → String
hex_encode [] = String.[]
hex_encode (b ∷ bs) =
    String.◌∷◌ (hex_digit (b / 16)) (String.◌∷◌ (hex_digit (b % 16)) (hex_encode bs))

-- The decimal digits of a number in front of a text; as many rounds as the number has are enough.
abbrev pub digits : ℕ → ℕ → String → String
digits zero n out = out
digits (suc fuel) n out =
    let out' = String.◌∷◌ (char_at "0123456789" (n % 10)) out in
    let more = digits fuel (n / 10) out' in if ltb n 10 then out' else more

unfoldable pub decimal : ℤ → String
decimal (pos n) = digits (suc n) n ""
decimal (negsuc n) = String.◌∷◌ "-" (digits (suc (suc n)) (suc n) "")

-- `newRequestID`, from the 16 bytes or the error of `rand.Read`
unfoldable pub new_request_id : Result (List ℕ) → ℤ → String
new_request_id (ok buf) unix_nano = hex_encode buf
new_request_id (err e) unix_nano = str_append "fallback-" (decimal unix_nano)

-- `RequestIDFrom`, of the text that the context has under the key, if it has one
abbrev pub request_id_from : Option String → String
request_id_from (some id) = id
request_id_from none = ""
