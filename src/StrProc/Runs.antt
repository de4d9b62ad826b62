-- ===== src/StrProc/Runs.antt =====
-- The words that StrProc collects are the longest runs between marks.
use vyatta_wanloadbalance.Common.{
  ℕ, zero, suc, ◌≤◌, ◌<◌, ◌≡◌, refl, sym, ◌∙◌, ap, ◌⊎◌, inl, inr, Bool, true, false, not, List, [],
  ◌∷◌, Text, ◌==◌, length, arith, Bool-cases,
}
use vyatta_wanloadbalance.StrProc.{mark, drop_marks, first_word, after_word, collect}

-- The longest runs of bytes that are not between tokens, in one pass.
abbrev pub starts_word : (ℕ → Bool) → Text → Bool
starts_word blank [] = false
starts_word blank (c ∷ cs) = not (blank c)

abbrev put_in_front : ℕ → List Text → List Text
put_in_front c [] = (c ∷ []) ∷ []
put_in_front c (w ∷ ws) = (c ∷ w) ∷ ws

-- What a byte does to the runs behind it: whether it is blank, and whether a run begins behind it.
abbrev pub extend : Bool → Bool → ℕ → List Text → List Text
extend true starts c rest = rest
extend false true c rest = put_in_front c rest
extend false false c rest = (c ∷ []) ∷ rest

unfoldable pub runs : (ℕ → Bool) → Text → List Text
runs blank [] = []
runs blank (c ∷ cs) = extend (blank c) (starts_word blank cs) c (runs blank cs)

abbrev pub marked : ℕ → Bool
marked c = c == mark

drop_marks_blank : (c : ℕ) (cs : Text) → (c == mark) ≡ true → drop_marks (c ∷ cs) ≡ drop_marks cs
unfolding drop_marks
drop_marks_blank c cs e = ground arith

drop_marks_word : (c : ℕ) (cs : Text) → (c == mark) ≡ false → drop_marks (c ∷ cs) ≡ c ∷ cs
unfolding drop_marks
drop_marks_word c cs e = ground arith

runs-drop_marks : (t : Text) → runs marked (drop_marks t) ≡ runs marked t
unfolding runs
runs-drop_marks [] = unfold drop_marks in refl
runs-drop_marks (c ∷ cs) = elim (Bool-cases (c == mark)) [
  | inl e ↦
      ap (runs marked) (drop_marks_blank c cs e)
      ∙ runs-drop_marks cs
      ∙ ap (λ b. extend b (starts_word marked cs) c (runs marked cs)) (sym e)
  | inr e ↦ ap (runs marked) (drop_marks_word c cs e)
]

length-drop_marks-le : (t : Text) → length (drop_marks t) ≤ length t
unfolding drop_marks
length-drop_marks-le [] = omega arith
length-drop_marks-le (c ∷ cs) = ground (arith, length-drop_marks-le cs)

length-after_word-le : (t : Text) → length (after_word t) ≤ length t
unfolding after_word
length-after_word-le [] = omega arith
length-after_word-le (c ∷ cs) = ground (arith, length-after_word-le cs)

drop_marks_head : (t : Text) (c : ℕ) (cs : Text) → drop_marks t ≡ c ∷ cs → (c == mark) ≡ false
unfolding drop_marks
drop_marks_head [] c cs e = cc
drop_marks_head (x ∷ xs) c cs e = ground (arith, drop_marks_head xs c cs)

Text-cases : (t : Text) → (t ≡ []) ⊎ ((c : ℕ) × (cs : Text) × (t ≡ c ∷ cs))
Text-cases [] = inl refl
Text-cases (c ∷ cs) = inr (c, cs, refl)

after_word_head : (c : ℕ) (cs : Text) → (c == mark) ≡ false → after_word (c ∷ cs) ≡ after_word cs
unfolding after_word
after_word_head c cs e = ground arith

first_word_head :
    (c : ℕ) (cs : Text) → (c == mark) ≡ false → first_word (c ∷ cs) ≡ c ∷ first_word cs
unfolding first_word
first_word_head c cs e = ground arith

first_word_blank : (c : ℕ) (cs : Text) → (c == mark) ≡ true → first_word (c ∷ cs) ≡ []
unfolding first_word
first_word_blank c cs e = ground arith

after_word_blank : (c : ℕ) (cs : Text) → (c == mark) ≡ true → after_word (c ∷ cs) ≡ cs
unfolding after_word
after_word_blank c cs e = ground arith

-- The first run ends before the first mark.
runs-first_word :
    (c : ℕ) (cs : Text)
    → (c == mark) ≡ false
    → runs marked (c ∷ cs) ≡ (c ∷ first_word cs) ∷ runs marked (after_word cs)
unfolding runs
runs-first_word c [] e =
    ap (λ b. extend b false c []) e ∙ unfold first_word in unfold after_word in refl
runs-first_word c (d ∷ ds) e =
    ap (λ b. extend b (not (marked d)) c (runs marked (d ∷ ds))) e ∙ elim (Bool-cases (d == mark)) [
      | inl m ↦
          ap (λ b. extend false (not b) c (extend b (starts_word marked ds) d (runs marked ds))) m
          ∙ rw (first_word_blank d ds m, after_word_blank d ds m) refl
      | inr m ↦
          ap (λ b. extend false (not b) c (runs marked (d ∷ ds))) m
          ∙ ap (put_in_front c) (runs-first_word d ds m)
          ∙ rw (first_word_head d ds m, after_word_head d ds m) refl
    ]

-- Enough fuel collects all of them.
pub collect-runs : (fuel : ℕ) (t : Text) → length t < fuel → collect fuel t ≡ runs marked t
unfolding collect runs
collect-runs zero t h = elim h [ ]
collect-runs (suc fuel) t h = elim (Text-cases (drop_marks t)) [
  | inl e ↦ rw (e, collect) (ap (runs marked) (sym e) ∙ runs-drop_marks t)
  | inr (c, cs, e) ↦
      let head = drop_marks_head t c cs e in
      let shorter : length (after_word cs) < fuel =
        omega (arith, ap length e, length-after_word-le cs, length-drop_marks-le t) in
      rw
        (
          e,
          collect,
          first_word_head c cs head,
          after_word_head c cs head,
          collect-runs fuel (after_word cs) shorter,
        )
        (sym (runs-first_word c cs head) ∙ ap (runs marked) (sym e) ∙ runs-drop_marks t)
]
