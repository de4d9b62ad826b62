-- ===== src/Factory/Loaded/Depth.antt =====
-- The depth that the symbols of a line lead to.
use vyatta_wanloadbalance.Common.{
  ℕ, ◌+◌, ◌≡◌, refl, ap, inl, inr, Bool, true, false, List, [], ◌∷◌, Option, none, some, Text, ℤ,
  pos, ◌+ℤ◌, ◌-ℤ◌, int_laws, pos_part, neg_part, Holds, compare_text, text_eq_iff, lit, text_eq,
  is_empty, Bool-cases, if◌then◌else◌,
}
use vyatta_wanloadbalance.StrProc.{str_proc}
use vyatta_wanloadbalance.Factory.Load.{Place, before_hash, write_path, read_symbol, read_symbols}

-- How often a symbol is among tokens, and among those of the lines.
unfoldable pub occurrences : Text → List Text → ℕ
occurrences word [] = 0
occurrences word (t ∷ ts) = (if text_eq t word then 1 else 0) + occurrences word ts

unfoldable pub occurrences_in : Text → List Text → ℕ
occurrences_in word [] = 0
occurrences_in word (l ∷ ls) =
    occurrences word (str_proc (before_hash l) b' ') + occurrences_in word ls

-- A symbol that is one brace is not the other.
one_brace : (t : Text) → text_eq t (lit "{") ≡ true → text_eq t (lit "}") ≡ false
unfolding lit text_eq compare_text
one_brace t e = rw ((text_eq_iff t (lit "{")).0 e) refl

abbrev one : Bool → ℕ
one b = if b then 1 else 0

-- The depth after a symbol.
abbrev Moved : ℤ → Bool → Bool → Place → Type 0
Moved depth opens closes q = q.depth +ℤ pos (one closes) ≡ depth +ℤ pos (one opens)

symbol-depth :
    (line symbol : Text) (p : Place)
    → Holds
        (Moved p.depth (text_eq symbol (lit "{")) (text_eq symbol (lit "}")))
        (read_symbol line symbol p)
unfolding read_symbol
symbol-depth line symbol p = elim (Bool-cases (text_eq symbol (lit "{"))) [
  | inl opens ↦ rw (opens, one_brace symbol opens) (omega int_laws)
  | inr other ↦ elim (Bool-cases (text_eq symbol (lit "}"))) [
    | inl closes ↦ rw (other, closes) (closed (write_path p.depth [] p.path))
    | inr neither ↦
        rw (other, neither)
          (named _ _ (write_path p.depth (if is_empty p.key then symbol else p.key) p.path))
  ]
]
  where
    closed :
        (o : Option (List Text))
        → Holds (Moved p.depth false true) (elim o [
          | none ↦ none
          | some path ↦ some (record p { path = path; depth = p.depth -ℤ pos 1 })
        ])
    closed none = tt
    closed (some path) = omega int_laws

    named :
        (key value : Text) (o : Option (List Text))
        → Holds (Moved p.depth false false) (elim o [
          | none ↦ none
          | some path ↦ some (record p { path = path; key = key; value = value })
        ])
    named key value none = tt
    named key value (some path) = refl

pub symbols-depth :
    (line : Text) (symbols : List Text) (p : Place)
    → Holds
        (λ (q : Place).
          q.depth +ℤ pos (occurrences (lit "}") symbols)
          ≡ p.depth +ℤ pos (occurrences (lit "{") symbols))
        (read_symbols line symbols p)
unfolding read_symbols occurrences
symbols-depth line [] p = refl
symbols-depth line (symbol ∷ symbols) p =
    elim (read_symbol line symbol p)
        as (λ (o : Option Place).
          Holds (Moved p.depth (text_eq symbol (lit "{")) (text_eq symbol (lit "}"))) o
          → Holds
              (λ (q : Place).
                q.depth +ℤ pos (one (text_eq symbol (lit "}")) + occurrences (lit "}") symbols)
                ≡ p.depth +ℤ pos (one (text_eq symbol (lit "{")) + occurrences (lit "{") symbols))
              (elim o as (λ (r : Option Place). Option Place) [
                | none ↦ none
                | some p' ↦ read_symbols line symbols p'
              ])) [
                | none ↦ λ k. tt
                | some p' ↦ λ k.
                    elim (read_symbols line symbols p')
                        as (λ (o : Option Place).
                          Holds
                            (λ (q : Place).
                              q.depth +ℤ pos (occurrences (lit "}") symbols)
                              ≡ p'.depth +ℤ pos (occurrences (lit "{") symbols))
                            o
                          → Holds
                              (λ (q : Place).
                                q.depth
                                  +ℤ pos (
                                      one (text_eq symbol (lit "}"))
                                      + occurrences (lit "}") symbols)
                                ≡ p.depth
                                  +ℤ pos (
                                      one (text_eq symbol (lit "{"))
                                      + occurrences (lit "{") symbols))
                              o) [
                                | none ↦ λ j. tt
                                | some q ↦ λ j. add_up p.depth p'.depth q.depth _ _ _ _ k j
                              ]
                      (symbols-depth line symbols p')
              ]
      (symbol-depth line symbol p)
  where
    add_up :
        (a b c : ℤ) (m n k l : ℕ)
        → b +ℤ pos m ≡ a +ℤ pos n
        → c +ℤ pos k ≡ b +ℤ pos l
        → c +ℤ pos (m + k) ≡ a +ℤ pos (n + l)
    add_up a b c m n k l e f =
        omega (int_laws, ap pos_part e, ap neg_part e, ap pos_part f, ap neg_part f)
