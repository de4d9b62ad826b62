-- ===== src/Common/Number.antt =====
-- Reading and printing numbers: `strtoul`, `strtol` and the `sprintf` formats that the program uses.
use Prim.Native.Nat.{ℕ, zero, suc, ◌+◌, ◌-◌, ◌*◌, ◌/◌, ◌%◌, ◌^◌, ◌<◌, min}
use mathlib.Core.Path.{◌≡◌, refl, ap, sym, ◌∙◌}
use mathlib.Core.Bool.{Bool, true, false, ◌&&◌, ◌||◌}
use mathlib.Core.List.{[], ◌∷◌, ◌++◌}
use mathlib.Core.Logic.{inl, inr}
use native.Mathlib.Omega.{arith}
use vyatta_wanloadbalance.Common.Tests.{leb, ltb, ◌==◌, if◌then◌else◌, Bool-cases}
use vyatta_wanloadbalance.Common.Int.{ℤ, pos, negsuc}
use vyatta_wanloadbalance.Common.Keys.{Text}

unfoldable pub is_digit : ℕ → Bool
is_digit c = leb b'0' c && leb c b'9'

-- The bytes that `isspace` accepts in the C locale.
is_space : ℕ → Bool
is_space c = c == 32 || leb 9 c && leb c 13

unfoldable pub parse_digits : ℕ → Text → ℕ
unfolding is_digit
parse_digits acc [] = acc
parse_digits acc (c ∷ cs) =
    let rest = parse_digits (acc * 10 + (c - b'0')) cs in if is_digit c then rest else acc

skip_space : Text → Text
unfolding is_space
skip_space [] = []
skip_space (c ∷ cs) = if is_space c then skip_space cs else c ∷ cs

-- The sign and the magnitude that `strtoul` and `strtol` read in base 10.
unfoldable pub read_signed : Text → Bool × ℕ
unfolding skip_space parse_digits
read_signed t = signed (skip_space t)
  where
    signed : Text → Bool × ℕ
    signed [] = (false, 0)
    signed (c ∷ cs) =
        if c == b'-'
        then (true, parse_digits 0 cs)
        else if c == b'+'
        then (false, parse_digits 0 cs)
        else (false, parse_digits 0 (c ∷ cs))

abbrev pub ulong_max : ℕ
ulong_max = 2 ^ 64 - 1

-- `strtoul(value, NULL, 10)`: out of range it answers ULONG_MAX, and a sign negates modulo 2^64.
unfoldable pub strtoul : Text → ℕ
unfolding read_signed
strtoul t =
    let (negative, n) = read_signed t in
    if ltb ulong_max n then ulong_max else if negative then (2 ^ 64 - n) % 2 ^ 64 else n

-- The conversion of an `unsigned long` to `int`.
unfoldable pub to_int : ℕ → ℤ
to_int n = let r = n % 2 ^ 32 in if ltb r (2 ^ 31) then pos r else negsuc (2 ^ 32 - r - 1)

-- `(unsigned short)strtol(value, NULL, 10)`; `strtol` answers LONG_MAX or LONG_MIN out of range.
unfoldable pub strtol_u16 : Text → ℕ
unfolding read_signed
strtol_u16 t =
    let (negative, n) = read_signed t in
    if negative then (2 ^ 16 - min n (2 ^ 63) % 2 ^ 16) % 2 ^ 16 else min n (2 ^ 63 - 1) % 2 ^ 16

digit_char : ℕ → ℕ
digit_char d = if ltb d 10 then b'0' + d else b'A' + (d - 10)

-- The digits of a number in front of a text. The fuel is above the number, and a base is above 1.
digits : ℕ → ℕ → ℕ → Text → Text
unfolding digit_char
digits base zero n out = out
digits base (suc fuel) n out =
    let more = digits base fuel (n / base) (digit_char (n % base) ∷ out) in
    if n / base == 0 then digit_char (n % base) ∷ out else more

-- `%d`, `%u` and `%ld` of a number that is not negative.
unfoldable pub decimal : ℕ → Text
unfolding digits
decimal n = digits 10 (suc n) n []

-- `%#X`.
unfoldable pub hexadecimal : ℕ → Text
unfolding digits
hexadecimal n = if n == 0 then b'0' ∷ [] else b'0' ∷ b'X' ∷ digits 16 (suc n) n []

-- `%d`.
unfoldable pub print_int : ℤ → Text
unfolding decimal
print_int (pos n) = decimal n
print_int (negsuc n) = b'-' ∷ decimal (suc n)

parse_digits-digits :
    (fuel n : ℕ) (out : Text)
    → n < fuel
    → parse_digits 0 (digits 10 fuel n out) ≡ parse_digits n out
unfolding digits parse_digits
parse_digits-digits zero n out h = elim h [ ]
parse_digits-digits (suc fuel) n out h = elim (Bool-cases (n / 10 == 0)) [
  | inl done ↦
      let last : n % 10 ≡ n = ground arith in ground (arith, ap (λ k. parse_digits k out) last)
  | inr more ↦ ground (
    arith,
    parse_digits-digits fuel (n / 10) (digit_char (n % 10) ∷ out),
    ap (λ k. parse_digits k out) next,
  )
]
  where
    next : n / 10 * 10 + n % 10 ≡ n
    next = omega arith

parse_digits-decimal : (n : ℕ) → parse_digits 0 (decimal n) ≡ n
unfolding decimal parse_digits
parse_digits-decimal n = parse_digits-digits (suc n) n [] (omega arith)

-- Different numbers are printed differently.
pub decimal-injective : (m n : ℕ) → decimal m ≡ decimal n → m ≡ n
decimal-injective m n h =
    sym (parse_digits-decimal m) ∙ ap (parse_digits 0) h ∙ parse_digits-decimal n

-- A reader that takes digits as `parse_digits` does reads a printed number as that number.
module _ {B : Type 0} (read : ℕ → Text → B)
    (step : (acc c : ℕ) (cs : Text)
      → is_digit c ≡ true
      → read acc (c ∷ cs) ≡ read (acc * 10 + (c - b'0')) cs) where
  one_digit :
      (acc d : ℕ) (cs : Text) → d < 10 → read acc (digit_char d ∷ cs) ≡ read (acc * 10 + d) cs
  unfolding digit_char is_digit
  one_digit acc d cs h =
      let digit : is_digit (digit_char d) ≡ true = ground arith in
      let value : acc * 10 + (digit_char d - b'0') ≡ acc * 10 + d = ground arith in
      step acc (digit_char d) cs digit ∙ ap (λ k. read k cs) value

  read-digits : (fuel n : ℕ) (out : Text) → n < fuel → read 0 (digits 10 fuel n out) ≡ read n out
  unfolding digits
  read-digits zero n out h = elim h [ ]
  read-digits (suc fuel) n out h = elim (Bool-cases (n / 10 == 0)) [
    | inl done ↦
        let last : 0 * 10 + n % 10 ≡ n = ground arith in
        rw done (one_digit 0 (n % 10) out (omega arith) ∙ ap (λ k. read k out) last)
    | inr more ↦
        let next : n / 10 * 10 + n % 10 ≡ n = omega arith in
        rw more (
          read-digits fuel (n / 10) (digit_char (n % 10) ∷ out) (ground arith)
          ∙ one_digit (n / 10) (n % 10) out (omega arith)
          ∙ ap (λ k. read k out) next)
  ]

  digits-append :
      (fuel n : ℕ) (out rest : Text) → digits 10 fuel n out ++ rest ≡ digits 10 fuel n (out ++ rest)
  unfolding digits
  digits-append zero n out rest = refl
  digits-append (suc fuel) n out rest = elim (Bool-cases (n / 10 == 0)) [
    | inl done ↦ rw (done, digits)
    | inr more ↦ rw (more, digits) (digits-append fuel (n / 10) (digit_char (n % 10) ∷ out) rest)
  ]

  pub read-decimal : (n : ℕ) (rest : Text) → read 0 (decimal n ++ rest) ≡ read n rest
  unfolding decimal
  read-decimal n rest =
      ap (read 0) (digits-append (suc n) n [] rest) ∙ read-digits (suc n) n rest (omega arith)
