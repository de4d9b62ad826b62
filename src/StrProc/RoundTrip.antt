-- ===== src/StrProc/RoundTrip.antt =====
-- Words joined by a separator, and the tokens of such a line.
use vyatta_wanloadbalance.Common.{
  All, ℕ, zero, suc, ◌<◌, ◌≡◌, refl, ap, ◌∙◌, true, false, List, [], ◌∷◌, ◌++◌, Text, ◌==◌, length,
  length-append, arith,
}
use vyatta_wanloadbalance.StrProc.{
  mark, tabs_to_spaces, remove_newline, mark_separators, drop_marks, first_word, after_word,
  collect, str_proc,
}

-- The words, each with a separator behind it.
abbrev pub joined : ℕ → List Text → Text
joined sep [] = []
joined sep (w ∷ ws) = w ++ sep ∷ joined sep ws

-- No byte of a plain text means anything to the constructor.
abbrev pub IsPlain : ℕ → ℕ → Type 0
IsPlain sep c =
    ((c == 9) ≡ false) × ((c == 10) ≡ false) × ((c == mark) ≡ false) × ((c == sep) ≡ false)

abbrev pub IsPlainWord : ℕ → Text → Type 0
IsPlainWord sep w = (0 < length w) × All (IsPlain sep) w

tabs_to_spaces_word :
    (sep : ℕ) (w rest : Text)
    → All (IsPlain sep) w
    → tabs_to_spaces (w ++ rest) ≡ w ++ tabs_to_spaces rest
unfolding tabs_to_spaces
tabs_to_spaces_word sep [] rest p = refl
tabs_to_spaces_word sep (c ∷ w) rest p =
    rw p.0.0 (ap (λ t. c ∷ t) (tabs_to_spaces_word sep w rest p.1))

tabs_to_spaces-joined :
    (sep : ℕ) (ws : List Text)
    → (sep == 9) ≡ false
    → All (IsPlainWord sep) ws
    → tabs_to_spaces (joined sep ws) ≡ joined sep ws
unfolding tabs_to_spaces
tabs_to_spaces-joined sep [] h p = refl
tabs_to_spaces-joined sep (w ∷ ws) h p =
    tabs_to_spaces_word sep w (sep ∷ joined sep ws) p.0.1
    ∙ ap (λ t. w ++ t) (rw h (ap (λ t. sep ∷ t) (tabs_to_spaces-joined sep ws h p.1)))

remove_newline_word :
    (sep : ℕ) (w rest : Text)
    → All (IsPlain sep) w
    → remove_newline (w ++ rest) ≡ w ++ remove_newline rest
unfolding remove_newline
remove_newline_word sep [] rest p = refl
remove_newline_word sep (c ∷ w) rest p =
    rw p.0.1 (ap (λ t. c ∷ t) (remove_newline_word sep w rest p.1))

remove_newline-joined :
    (sep : ℕ) (ws : List Text)
    → (sep == 10) ≡ false
    → All (IsPlainWord sep) ws
    → remove_newline (joined sep ws) ≡ joined sep ws
unfolding remove_newline
remove_newline-joined sep [] h p = refl
remove_newline-joined sep (w ∷ ws) h p =
    remove_newline_word sep w (sep ∷ joined sep ws) p.0.1
    ∙ ap (λ t. w ++ t) (rw h (ap (λ t. sep ∷ t) (remove_newline-joined sep ws h p.1)))

mark_separators_word :
    (sep : ℕ) (w rest : Text)
    → All (IsPlain sep) w
    → mark_separators sep (w ++ rest) ≡ w ++ mark_separators sep rest
unfolding mark_separators
mark_separators_word sep [] rest p = refl
mark_separators_word sep (c ∷ w) rest p =
    rw p.0.3 (ap (λ t. c ∷ t) (mark_separators_word sep w rest p.1))

eq_self : (c : ℕ) → (c == c) ≡ true
eq_self c = ground arith

mark_separators-joined :
    (sep : ℕ) (ws : List Text)
    → All (IsPlainWord sep) ws
    → mark_separators sep (joined sep ws) ≡ joined mark ws
unfolding mark_separators
mark_separators-joined sep [] p = refl
mark_separators-joined sep (w ∷ ws) p =
    mark_separators_word sep w (sep ∷ joined sep ws) p.0.1
    ∙ ap (λ t. w ++ t) (rw (eq_self sep) (ap (λ t. mark ∷ t) (mark_separators-joined sep ws p.1)))

first_word_plain :
    (sep : ℕ) (w rest : Text) → All (IsPlain sep) w → first_word (w ++ mark ∷ rest) ≡ w
unfolding first_word
first_word_plain sep [] rest p = refl
first_word_plain sep (c ∷ w) rest p = rw p.0.2 (ap (λ t. c ∷ t) (first_word_plain sep w rest p.1))

after_word_plain :
    (sep : ℕ) (w rest : Text) → All (IsPlain sep) w → after_word (w ++ mark ∷ rest) ≡ rest
unfolding after_word
after_word_plain sep [] rest p = refl
after_word_plain sep (c ∷ w) rest p = rw p.0.2 (after_word_plain sep w rest p.1)

drop_marks_plain : (sep c : ℕ) (cs : Text) → IsPlain sep c → drop_marks (c ∷ cs) ≡ c ∷ cs
unfolding drop_marks
drop_marks_plain sep c cs p = rw p.2

collect-joined :
    (sep fuel : ℕ) (ws : List Text)
    → length (joined mark ws) < fuel
    → All (IsPlainWord sep) ws
    → collect fuel (joined mark ws) ≡ ws
unfolding collect
collect-joined sep zero ws h p = elim h [ ]
collect-joined sep (suc fuel) [] h p = rw (nothing, collect)
  where
    nothing : drop_marks [] ≡ []
    nothing = unfold drop_marks in refl
collect-joined sep (suc fuel) ([] ∷ ws) h p = absurd (omega arith)
collect-joined sep (suc fuel) ((c ∷ w) ∷ ws) h p =
    let rest =
      collect-joined sep fuel ws (omega (arith, length-append w (mark ∷ joined mark ws))) p.1 in
    rw
      (
        drop_marks_plain sep c (w ++ mark ∷ joined mark ws) p.0.1.0,
        collect,
        first_word_plain sep (c ∷ w) (joined mark ws) p.0.1,
        after_word_plain sep (c ∷ w) (joined mark ws) p.0.1,
      )
      (ap (λ (r : List Text). (c ∷ w) ∷ r) rest)

-- A line that consists of plain words with the separator behind each is cut into these words, for
-- every separator but the tab, the line feed and the mark.
pub str_proc-joined :
    (sep : ℕ) (ws : List Text)
    → (sep == 9) ≡ false
    → (sep == 10) ≡ false
    → (sep == mark) ≡ false
    → All (IsPlainWord sep) ws
    → str_proc (joined sep ws) sep ≡ ws
unfolding str_proc
str_proc-joined sep ws t n m p =
    rw
      (
        tabs_to_spaces-joined sep ws t p,
        remove_newline-joined sep ws n p,
        mark_separators-joined sep ws p,
      )
      (collect-joined sep (suc (length (joined mark ws))) ws (omega arith) p)
