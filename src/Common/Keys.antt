-- ===== src/Common/Keys.antt =====
-- The keys of the program's `std::map`s: integers, and texts in the order of `std::string`.
use Prim.Native.Nat.{ℕ, ◌+◌, compare, Ordering}
use mathlib.Core.Path.{◌≡◌, refl}
use mathlib.Core.Logic.{◌↔◌}
use mathlib.Core.Bool.{Bool, true, false}
use mathlib.Core.List.{List, [], ◌∷◌}
use native.Mathlib.Omega.{arith}
use vyatta_wanloadbalance.Common.Int.{ℤ, pos_part, neg_part, eq_of_parts}

-- A strict total order with a decision, as `std::map` asks of its keys.
pub record Key (K : Type 0) : Type 0 where
  pub cmp : K → K → Ordering
  pub cmp_eq : (a b : K) → cmp a b ≡ Ordering.eq → a ≡ b
  pub cmp_refl : (a : K) → cmp a a ≡ Ordering.eq
  pub cmp_trans :
      (a b c : K) → cmp a b ≡ Ordering.lt → cmp b c ≡ Ordering.lt → cmp a c ≡ Ordering.lt
  pub cmp_gt : (a b : K) → cmp a b ≡ Ordering.gt → cmp b a ≡ Ordering.lt

unfoldable pub compare_ℤ : ℤ → ℤ → Ordering
compare_ℤ a b = compare (pos_part a + neg_part b) (pos_part b + neg_part a)

pub compare_ℤ_eq : (a b : ℤ) → compare_ℤ a b ≡ Ordering.eq → a ≡ b
unfolding compare_ℤ
compare_ℤ_eq a b h = eq_of_parts a b (ground arith)

pub compare_ℤ_refl : (a : ℤ) → compare_ℤ a a ≡ Ordering.eq
unfolding compare_ℤ
compare_ℤ_refl a = ground arith

pub compare_ℤ_trans :
    (a b c : ℤ)
    → compare_ℤ a b ≡ Ordering.lt
    → compare_ℤ b c ≡ Ordering.lt
    → compare_ℤ a c ≡ Ordering.lt
unfolding compare_ℤ
compare_ℤ_trans a b c h k = ground arith

pub compare_ℤ_gt : (a b : ℤ) → compare_ℤ a b ≡ Ordering.gt → compare_ℤ b a ≡ Ordering.lt
unfolding compare_ℤ
compare_ℤ_gt a b h = ground arith

instance abbrev pub int_key : Key ℤ
int_key = record {
  cmp = compare_ℤ;
  cmp_eq = compare_ℤ_eq;
  cmp_refl = compare_ℤ_refl;
  cmp_trans = compare_ℤ_trans;
  cmp_gt = compare_ℤ_gt;
}

-- A byte string. A `std::string` is the list of its bytes.
abbrev pub Text : Type 0
Text = List ℕ

-- `std::string::compare`, by bytes.
unfoldable pub compare_text : Text → Text → Ordering
compare_text [] [] = Ordering.eq
compare_text [] (y ∷ ys) = Ordering.lt
compare_text (x ∷ xs) [] = Ordering.gt
compare_text (x ∷ xs) (y ∷ ys) = elim (compare x y) [
  | Ordering.lt ↦ Ordering.lt
  | Ordering.eq ↦ compare_text xs ys
  | Ordering.gt ↦ Ordering.gt
]

pub compare_text_eq : (a b : Text) → compare_text a b ≡ Ordering.eq → a ≡ b
unfolding compare_text
compare_text_eq [] [] h = refl
compare_text_eq [] (y ∷ ys) h = cc
compare_text_eq (x ∷ xs) [] h = cc
compare_text_eq (x ∷ xs) (y ∷ ys) h = ground (arith, compare_text_eq xs ys)

pub compare_text_refl : (a : Text) → compare_text a a ≡ Ordering.eq
unfolding compare_text
compare_text_refl [] = refl
compare_text_refl (x ∷ xs) = ground (arith, compare_text_refl xs)

pub compare_text_trans :
    (a b c : Text)
    → compare_text a b ≡ Ordering.lt
    → compare_text b c ≡ Ordering.lt
    → compare_text a c ≡ Ordering.lt
unfolding compare_text
compare_text_trans [] [] c h k = cc
compare_text_trans [] (y ∷ ys) [] h k = cc
compare_text_trans [] (y ∷ ys) (z ∷ zs) h k = refl
compare_text_trans (x ∷ xs) [] c h k = cc
compare_text_trans (x ∷ xs) (y ∷ ys) [] h k = cc
compare_text_trans (x ∷ xs) (y ∷ ys) (z ∷ zs) h k = ground (arith, compare_text_trans xs ys zs)

pub compare_text_gt : (a b : Text) → compare_text a b ≡ Ordering.gt → compare_text b a ≡ Ordering.lt
unfolding compare_text
compare_text_gt [] [] h = cc
compare_text_gt [] (y ∷ ys) h = cc
compare_text_gt (x ∷ xs) [] h = refl
compare_text_gt (x ∷ xs) (y ∷ ys) h = ground (arith, compare_text_gt xs ys)

instance abbrev pub text_key : Key Text
text_key = record {
  cmp = compare_text;
  cmp_eq = compare_text_eq;
  cmp_refl = compare_text_refl;
  cmp_trans = compare_text_trans;
  cmp_gt = compare_text_gt;
}

-- `==` on `std::string`.
unfoldable pub text_eq : Text → Text → Bool
unfolding compare_text
text_eq a b = elim (compare_text a b) [ Ordering.eq ↦ true | _ ↦ false ]

pub text_eq_refl : (a : Text) → text_eq a a ≡ true
unfolding text_eq
text_eq_refl a = rw (compare_text_refl a, text_eq)

pub text_eq_iff : (a b : Text) → (text_eq a b ≡ true) ↔ (a ≡ b)
unfolding text_eq
text_eq_iff a b = (λ h. compare_text_eq a b (ground arith), λ h. rw h (text_eq_refl b))
