-- ===== src/Output/Durations.antt =====
-- Reading a printed duration.
use mathlib.Core.List.{append_assoc}
use vyatta_wanloadbalance.Common.{
  ℕ, ◌+◌, ◌-◌, ◌*◌, ◌/◌, ◌^◌, ◌==◌, ◌<◌, ◌≡◌, refl, sym, ap, ◌∙◌, false, [], ◌∷◌, ◌++◌, Text, ltb,
  arith, is_digit, decimal, read-decimal, Bool-cases, inl, inr, if◌then◌else◌,
}
use vyatta_wanloadbalance.Output.{unit_text, left_over, duration, success_diff, failure_diff}

-- The seconds of a unit.
unfoldable pub seconds : ℕ → ℕ
seconds c = if c == b'd' then 86400 else if c == b'h' then 3600 else if c == b'm' then 60 else 1

-- The seconds that a text of numbers and units stands for, from the number read so far and the sum of
-- what stands before it.
unfoldable pub read_duration : ℕ → ℕ → Text → ℕ
unfolding seconds
read_duration acc sum [] = sum
read_duration acc sum (c ∷ cs) =
    if is_digit c
    then read_duration (acc * 10 + (c - b'0')) sum cs
    else read_duration 0 (sum + acc * seconds c) cs

read_number :
    (sum n : ℕ) (rest : Text) → read_duration 0 sum (decimal n ++ rest) ≡ read_duration n sum rest
unfolding read_duration
read_number sum =
    read-decimal (λ acc t. read_duration acc sum t) (λ acc c cs e. rw (read_duration, e))

read_unit :
    (sum n letter : ℕ) (rest : Text)
    → is_digit letter ≡ false
    → read_duration 0 sum (unit_text n letter ++ rest)
      ≡ read_duration 0 (sum + n * seconds letter) rest
unfolding unit_text read_duration
read_unit sum n letter rest e = elim (Bool-cases (ltb 0 n)) [
  | inl some_left ↦ rw some_left (
      ap (read_duration 0 sum) (append_assoc (decimal n) (letter ∷ []) rest)
      ∙ read_number sum n (letter ∷ rest)
      ∙ rw (read_duration, e))
  | inr none_left ↦
      let nothing : n ≡ 0 = ground arith in
      let same : sum + n * seconds letter ≡ sum =
        omega (arith, ap (λ k. k * seconds letter) nothing) in
      rw none_left (ap (λ k. read_duration 0 k rest) (sym same))
]

add_up :
    (n : ℕ)
    → let r1 = left_over n 86400 in
      let r2 = left_over r1 3600 in
      0 + n / 86400 * 86400 + r1 / 3600 * 3600 + r2 / 60 * 60 + left_over r2 60 * 1 ≡ n
unfolding left_over
add_up n = ground arith

-- A printed duration, read back as numbers and units, stands for the seconds that it was printed from.
pub read_duration-duration : (n : ℕ) → read_duration 0 0 (duration n) ≡ n
unfolding duration read_duration seconds is_digit
read_duration-duration n =
    read_unit 0 (n / 86400) b'd' _ refl
    ∙ read_unit _ (r1 / 3600) b'h' _ refl
    ∙ read_unit _ (r2 / 60) b'm' _ refl
    ∙ read_number _ (left_over r2 60) (b's' ∷ [])
    ∙ add_up n
  where
    r1 : ℕ
    r1 = left_over n 86400

    r2 : ℕ
    r2 = left_over r1 3600

-- If the clock has been set back behind the last success or failure of an interface, which lies
-- less than 2^64 seconds after the epoch, the time since the last success counts as 0, and the time
-- since the last failure is 2^64 seconds less what the clock has been set back behind it.
pub clock_set_back :
    (cur last : ℕ)
    → cur < last
    → last < 2 ^ 64
    → (success_diff cur last ≡ 0) × (failure_diff cur last ≡ 2 ^ 64 - (last - cur))
unfolding success_diff failure_diff
clock_set_back cur last back range = (ground arith, ground arith)
