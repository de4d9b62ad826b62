-- ===== src/Float.antt =====
-- The type `float`, which the C++ implementation provides: its operations as the code uses them, and
-- what IEEE 754 single precision says of them on the numbers that occur.
use vyatta_wanloadbalance.Common.{
  ℕ, ◌*◌, ◌^◌, ◌≤◌, ◌<◌, ◌≡◌, Bool, true, false, Text, ℤ, pos, negsuc, ltb,
}

pub record Float : Type 1 where
  pub F : Type 0
  -- `float(n)` of an `int`, and `(int)f`.
  pub of_int : ℤ → F
  pub to_int : F → ℤ
  pub div : F → F → F
  -- `f > 0.` and `f < .01`, where the comparison is in `double`.
  pub positive : F → Bool
  pub below_cent : F → Bool
  -- `sprintf("%f")`.
  pub fixed : F → Text

-- Up to 2^24 every integer is a `float`.
abbrev pub exact_max : ℕ
exact_max = 2 ^ 24

-- The laws leave open what a quotient of exactly 1/100 is rounded to. A positive number over 0 is
-- infinite, and over a negative one negative.
pub record FloatLaws (float : Float) : Type 0 where
  pub to_int-of_int : (n : ℕ) → n ≤ exact_max → float.to_int (float.of_int (pos n)) ≡ pos n
  pub positive-of_int : (n : ℕ) → n ≤ exact_max → float.positive (float.of_int (pos n)) ≡ ltb 0 n
  pub below_cent_zero : float.below_cent (float.of_int (pos 0)) ≡ true
  pub below_cent-div :
      (a b : ℕ)
      → b ≤ exact_max
      → 100 * a < b
      → float.below_cent (float.div (float.of_int (pos a)) (float.of_int (pos b))) ≡ true
  pub above_cent-div :
      (a b : ℕ)
      → a ≤ exact_max
      → b < 100 * a
      → b ≤ exact_max
      → float.below_cent (float.div (float.of_int (pos a)) (float.of_int (pos b))) ≡ false
  pub below_cent-div_neg :
      (a b : ℕ)
      → 0 < a
      → float.below_cent (float.div (float.of_int (pos a)) (float.of_int (negsuc b))) ≡ true
