-- ===== src/Decimal.antt =====
-- Decimal amounts (decimal.js, and the Decimal columns of apps/api/prisma/schema.prisma).
-- An amount is a whole number of a unit that is fine enough for every amount at hand; `scale` of
-- these units make 1. decimal.js adds, subtracts, negates and compares exactly up to 20
-- significant digits, which the columns of 18 digits stay within, so these are those of ℤ.
-- Products, quotients and the rounding of a stored or printed amount belong to decimal.js and
-- to the database: they are the fields of `Decimals`, and what is relied on is a hypothesis.
use erp_ai_private.Prelude.{ℕ, ◌*◌, ◌≡◌, Bool}
use erp_ai_private.Prelude.Int.{ℤ, pos, ◌+ℤ◌, ◌-ℤ◌, ◌≤ℤ◌, eq_ℤ, ltb_ℤ}

pub record Decimals : Type 0 where
  pub scale : ℕ
  pub mul : ℤ → ℤ → ℤ
  pub div : ℤ → ℤ → ℤ
  -- what a column with that many decimal places keeps of an amount
  pub column : ℕ → ℤ → ℤ
  -- `toDecimalPlaces`
  pub to_decimal_places : ℕ → ℤ → ℤ

-- `new Decimal(n)` at a whole number
abbrev pub lit : Decimals → ℕ → ℤ
lit D n = pos (n * D.scale)

abbrev pub is_negative : ℤ → Bool
is_negative a = ltb_ℤ a (pos 0)

abbrev pub is_zero : ℤ → Bool
is_zero a = eq_ℤ a (pos 0)

-- The amount fits a column with two decimal places: it is stored unchanged.
abbrev pub IsCents : Decimals → ℤ → Type 0
IsCents D a = D.column 2 a ≡ a

-- The amount fits a column with that many decimal places.
abbrev pub Fits : Decimals → ℕ → ℤ → Type 0
Fits D n a = D.column n a ≡ a

-- Rounding to a column keeps 0 and a sign, and amounts that fit a column add up to one that does:
-- documented properties of numeric columns.
pub record Rounds (D : Decimals) : Type 0 where
  pub column_zero : (n : ℕ) → D.column n (pos 0) ≡ pos 0
  pub column_nonneg : (n : ℕ) (a : ℤ) → pos 0 ≤ℤ a → pos 0 ≤ℤ D.column n a
  pub column_add : (n : ℕ) (a b : ℤ) → Fits D n a → Fits D n b → Fits D n (a +ℤ b)
  pub column_sub : (n : ℕ) (a b : ℤ) → Fits D n a → Fits D n b → Fits D n (a -ℤ b)
