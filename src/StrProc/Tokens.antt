-- ===== src/StrProc/Tokens.antt =====
-- What the tokens of a line are.
use mathlib.Core.List.{append-nil}
use vyatta_wanloadbalance.Common.{
  All, ℕ, suc, ◌≡◌, refl, sym, ◌∙◌, ap, inl, inr, Bool, true, false, not, ◌||◌, ◌&&◌, List, [], ◌∷◌,
  ◌++◌, Text, ◌==◌, if◌then◌else◌, length, arith, Bool-cases,
}
use vyatta_wanloadbalance.StrProc.{
  mark, tabs_to_spaces, remove_newline, mark_separators, collect, str_proc,
}
use vyatta_wanloadbalance.StrProc.Runs.{starts_word, extend, runs, marked, collect-runs}

-- A byte that stands between tokens: the separator, the mark, and if the separator is the space also
-- the tab.
abbrev pub is_blank : ℕ → ℕ → Bool
is_blank sep c = c == sep || (c == mark || (c == 9 && sep == 32))

extend-eq :
    (b b' starts starts' : Bool) (c c' : ℕ) (rest rest' : List Text)
    → b ≡ b'
    → starts ≡ starts'
    → (b' ≡ false → c ≡ c')
    → rest ≡ rest'
    → extend b starts c rest ≡ extend b' starts' c' rest'
extend-eq b true starts starts' c c' rest rest' e f g h = rw (e, h) refl
extend-eq b false starts starts' c c' rest rest' e f g h = rw (e, f, g refl, h) refl

abbrev separates : ℕ → ℕ → Bool
separates sep c = c == sep || c == mark

marked-separates : (sep c : ℕ) → marked (if c == sep then mark else c) ≡ separates sep c
marked-separates sep c = ground arith

starts-mark_separators :
    (sep : ℕ) (t : Text)
    → starts_word marked (mark_separators sep t) ≡ starts_word (separates sep) t
unfolding mark_separators
starts-mark_separators sep [] = refl
starts-mark_separators sep (c ∷ cs) = ap not (marked-separates sep c)

runs-mark_separators :
    (sep : ℕ) (t : Text) → runs marked (mark_separators sep t) ≡ runs (separates sep) t
unfolding runs mark_separators
runs-mark_separators sep [] = refl
runs-mark_separators sep (c ∷ cs) =
    extend-eq _ _ _ _ _ _ _ _ (marked-separates sep c) (starts-mark_separators sep cs)
      (λ word. same word) (runs-mark_separators sep cs)
  where
    same : separates sep c ≡ false → (if c == sep then mark else c) ≡ c
    same word = ground arith

-- A byte of a line that is no line feed, and a tab only if the separator is the space.
abbrev pub IsInner : ℕ → ℕ → Type 0
IsInner sep c = ((c == 10) ≡ false) × ((c == 9 && not (sep == 32)) ≡ false)

separates-is_blank : (sep c : ℕ) → (c == 9) ≡ false → separates sep c ≡ is_blank sep c
separates-is_blank sep c e = ground arith

tabs_tab :
    (c : ℕ) (cs : Text)
    → (c == 9) ≡ true
    → tabs_to_spaces (c ∷ cs) ≡ 32 ∷ 32 ∷ 32 ∷ 32 ∷ tabs_to_spaces cs
unfolding tabs_to_spaces
tabs_tab c cs e = rw (tabs_to_spaces, e) refl

tabs_other :
    (c : ℕ) (cs : Text) → (c == 9) ≡ false → tabs_to_spaces (c ∷ cs) ≡ c ∷ tabs_to_spaces cs
unfolding tabs_to_spaces
tabs_other c cs e = rw (tabs_to_spaces, e) refl

-- A tab that is allowed stands for spaces that separate.
tab_blank : (sep c : ℕ) → IsInner sep c → (c == 9) ≡ true → is_blank sep c ≡ true
tab_blank sep c p e = ground arith

space_blank : (sep c : ℕ) → IsInner sep c → (c == 9) ≡ true → separates sep 32 ≡ true
space_blank sep c p e = ground arith

starts-tabs :
    (sep : ℕ) (t : Text)
    → All (IsInner sep) t
    → starts_word (separates sep) (tabs_to_spaces t) ≡ starts_word (is_blank sep) t
starts-tabs sep [] p = unfold tabs_to_spaces in refl
starts-tabs sep (c ∷ cs) p = elim (Bool-cases (c == 9)) [
  | inl tab ↦
      ap (starts_word (separates sep)) (tabs_tab c cs tab)
      ∙ ap not (space_blank sep c p.0 tab ∙ sym (tab_blank sep c p.0 tab))
  | inr other ↦
      ap (starts_word (separates sep)) (tabs_other c cs other)
      ∙ ap not (separates-is_blank sep c other)
]

-- Four blanks change no run behind them.
runs-blanks :
    (blank : ℕ → Bool) (t : Text)
    → blank 32 ≡ true
    → runs blank (32 ∷ 32 ∷ 32 ∷ 32 ∷ t) ≡ runs blank t
unfolding runs
runs-blanks blank t e = rw e refl

runs-tabs :
    (sep : ℕ) (t : Text)
    → All (IsInner sep) t
    → runs (separates sep) (tabs_to_spaces t) ≡ runs (is_blank sep) t
unfolding runs
runs-tabs sep [] p = unfold tabs_to_spaces in refl
runs-tabs sep (c ∷ cs) p = elim (Bool-cases (c == 9)) [
  | inl tab ↦
      ap (runs (separates sep)) (tabs_tab c cs tab)
      ∙ runs-blanks (separates sep) (tabs_to_spaces cs) (space_blank sep c p.0 tab)
      ∙ runs-tabs sep cs p.1
      ∙ ap (λ b. extend b (starts_word (is_blank sep) cs) c (runs (is_blank sep) cs))
          (sym (tab_blank sep c p.0 tab))
  | inr other ↦
      ap (runs (separates sep)) (tabs_other c cs other)
      ∙ extend-eq _ _ _ _ c c _ _ (separates-is_blank sep c other) (starts-tabs sep cs p.1)
          (λ word. refl) (runs-tabs sep cs p.1)
]

-- The line feed at the end of a line is all that `remove_newline` takes away.
without_feed :
    (sep : ℕ) (t end : Text)
    → All (IsInner sep) t
    → remove_newline (tabs_to_spaces (t ++ end))
      ≡ tabs_to_spaces t ++ remove_newline (tabs_to_spaces end)
unfolding remove_newline tabs_to_spaces
without_feed sep [] end p = refl
without_feed sep (c ∷ cs) end p = elim (Bool-cases (c == 9)) [
  | inl tab ↦ rw tab (ap (λ l. 32 ∷ 32 ∷ 32 ∷ 32 ∷ l) (without_feed sep cs end p.1))
  | inr other ↦ rw (other, p.0.0) (ap (λ l. c ∷ l) (without_feed sep cs end p.1))
]

-- For every separator but the mark itself, the tokens of a line, with or without a line feed at its
-- end, are the longest runs of bytes that are neither the separator nor the mark; nor, if the
-- separator is the space, the tab. The line holds no other line feed, and tabs only if the separator
-- is the space.
pub str_proc-runs :
    (sep : ℕ) (t : Text)
    → (sep == mark) ≡ false
    → All (IsInner sep) t
    → (str_proc t sep ≡ runs (is_blank sep) t)
      × (str_proc (t ++ 10 ∷ []) sep ≡ runs (is_blank sep) t)
unfolding str_proc remove_newline tabs_to_spaces
str_proc-runs sep t other p =
    (ap tokens (sym (append-nil t)) ∙ tokens_end [] refl, tokens_end (10 ∷ []) refl)
  where
    tokens : Text → List Text
    tokens line = str_proc line sep

    tokens_end :
        (end : Text)
        → remove_newline (tabs_to_spaces end) ≡ []
        → tokens (t ++ end) ≡ runs (is_blank sep) t
    tokens_end end gone =
        let clean =
          without_feed sep t end p
          ∙ ap (λ l. tabs_to_spaces t ++ l) gone
          ∙ append-nil (tabs_to_spaces t) in
        ap (λ l. collect (suc (length (mark_separators sep l))) (mark_separators sep l)) clean
        ∙ collect-runs _ (mark_separators sep (tabs_to_spaces t)) (omega arith)
        ∙ runs-mark_separators sep (tabs_to_spaces t)
        ∙ runs-tabs sep t p
