-- ===== src/Outside.antt =====
-- What the property and LINE services take from packages that are not in this repository:
-- github.com/google/uuid, github.com/shopspring/decimal, the instants of the package time, and the
-- rounding of both in the columns of db/20260819120000_create_properties.tx.up.sql.
use chuchu.Prelude.{ℕ, Bool, true, false, ◌≡◌, String, is_blank}
use chuchu.Apperr.{GoError}
use chuchu.Effect.{Result, err}

pub record Outside : Type 1 where
  pub Uuid : Type 0
  -- a UUID is an array of bytes, which Go compares by `==`
  pub uuid_eq : Discrete Uuid
  pub Time : Type 0
  pub Decimal : Type 0
  -- `decimal.NewFromString`, `decimal.Zero`, `IsPositive`, `IsNegative`, `StringFixed`
  pub new_from_string : String → Result Decimal
  pub zero : Decimal
  pub is_positive : Decimal → Bool
  pub is_negative : Decimal → Bool
  pub string_fixed : Decimal → ℕ → String
  -- what a column `NUMERIC(…, 2)` keeps of a decimal, and `TIMESTAMPTZ` of an instant
  pub round_amount : Decimal → Decimal
  pub round_time : Time → Time

-- What is documented of decimals: zero is not negative, no positive number is negative, and a text
-- of white space is not a decimal. Rounding to two places makes no number negative, and `StringFixed`
-- and `NUMERIC` both round half away from zero.
pub record DecimalLaws (o : Outside) : Type 0 where
  pub zero_sign : o.is_negative o.zero ≡ false
  pub positive_sign : (d : o.Decimal) → o.is_positive d ≡ true → o.is_negative d ≡ false
  pub blank_rejected :
      (s : String) → is_blank s ≡ true → (e : GoError) × (o.new_from_string s ≡ err e)
  pub round_sign :
      (d : o.Decimal) → o.is_negative d ≡ false → o.is_negative (o.round_amount d) ≡ false
  pub round_fixed : (d : o.Decimal) → o.string_fixed (o.round_amount d) 2 ≡ o.string_fixed d 2
