-- ===== src/Weights/Proportion.antt =====
-- The traffic that the shares of a rule give to each interface.
use native.Mathlib.Nat.{mul_comm, mul_assoc}
use vyatta_wanloadbalance.Common.{
  ℕ, ◌+◌, ◌-◌, ◌*◌, ◌≤◌, ◌<◌, ◌≡◌, refl, sym, ap, ◌∙◌, true, false, ◌&&◌, List, [], ◌∷◌, ◌++◌, Text,
  Map, pos, ltb, arith, Bool-cases, inl, inr, text_key, IsSorted, if◌then◌else◌,
}
use vyatta_wanloadbalance.Data.{Data, Rule}
use vyatta_wanloadbalance.State.{is_active}
use vyatta_wanloadbalance.Float.{Float, FloatLaws, exact_max}
use vyatta_wanloadbalance.Weights.{get_new_weights}
use vyatta_wanloadbalance.Weights.Sharing.{active_weight, total, shares, get_new_weights-sharing}

-- The interfaces that take part, each with its weight and what it is weighed against: itself and the
-- active interfaces behind it.
unfoldable pub parts : Data → Map Text ℕ → Map Text (ℕ × ℕ)
parts d [] = []
parts d ((iface, weight) ∷ rest) =
    let later = parts d rest in
    if is_active d iface && ltb 0 weight
    then (iface, (weight, weight + total d rest)) ∷ later
    else later

-- No interface that takes part has one percent or less.
abbrev pub AreLarge : Map Text (ℕ × ℕ) → Type 0
AreLarge [] = Unit {0}
AreLarge ((iface, (weight, whole)) ∷ rest) = (whole < 100 * weight) × AreLarge rest

-- A packet that meets the rules of the interfaces in turn passes each one with a chance of
-- (whole - weight) / whole. The product of the numerators, and that of the denominators.
unfoldable pub passed : Map Text (ℕ × ℕ) → ℕ
passed [] = 1
passed ((iface, (weight, whole)) ∷ rest) = (whole - weight) * passed rest

unfoldable pub wholes : Map Text (ℕ × ℕ) → ℕ
wholes [] = 1
wholes ((iface, (weight, whole)) ∷ rest) = whole * wholes rest

no_part :
    (d : Data) (iface : Text) (weight : ℕ)
    → (is_active d iface && ltb 0 weight) ≡ false
    → active_weight d iface weight ≡ 0
no_part d iface weight e = ground (arith, e)

full_part :
    (d : Data) (iface : Text) (weight : ℕ)
    → (is_active d iface && ltb 0 weight) ≡ true
    → active_weight d iface weight ≡ weight
full_part d iface weight e = ground (arith, e)

first : {A : Type 0} {x y : A} {xs ys : List A} → x ∷ xs ≡ y ∷ ys → x ≡ y
first e = cc e

others : {A : Type 0} {x y : A} {xs ys : List A} → x ∷ xs ≡ y ∷ ys → xs ≡ ys
others e = cc e

one_more :
    (k v w t p q g a : ℕ)
    → w ≡ v
    → w + t ≡ k
    → a ≡ w
    → p * t ≡ q * g
    → (k - v) * p * (a + t) ≡ k * q * g
one_more k v w t p q g a e f h later =
    let left_over : k - v ≡ t = omega arith in
    let sum : a + t ≡ k = omega arith in
    rw (left_over, sum)
      (mul_comm (t * p) k ∙ ap (λ n. k * n) (mul_comm t p ∙ later) ∙ sym (mul_assoc k q g))

-- What is left behind the interfaces before, over what they were weighed against.
telescope :
    (d : Data) (m : Map Text ℕ) (before after : Map Text (ℕ × ℕ)) (iface : Text) (weight whole : ℕ)
    → parts d m ≡ before ++ (iface, (weight, whole)) ∷ after
    → passed before * total d m ≡ wholes before * whole
unfolding parts passed wholes total
telescope d [] [] after iface weight whole e = absurd (cc e)
telescope d [] (x ∷ before) after iface weight whole e = absurd (cc e)
telescope d ((i, w) ∷ rest) [] after iface weight whole e =
    elim (Bool-cases (is_active d i && ltb 0 w)) [
      | inl in_turn ↦
          let sum : w + total d rest ≡ whole = ap (λ p. p.1.1) (first (rw in_turn at e)) in
          omega (arith, full_part d i w in_turn, sum)
      | inr out ↦
          let later = telescope d rest [] after iface weight whole (rw out at e) in
          omega (arith, no_part d i w out, later)
    ]
telescope d ((i, w) ∷ rest) ((j, (v, k)) ∷ before) after iface weight whole e =
    elim (Bool-cases (is_active d i && ltb 0 w)) [
      | inl in_turn ↦
          let same = first (rw in_turn at e) in
          let later = telescope d rest before after iface weight whole (others (rw in_turn at e)) in
          one_more k v w (total d rest) (passed before) (wholes before) whole (active_weight d i w)
            (ap (λ p. p.1.0) same) (ap (λ p. p.1.1) same) (full_part d i w in_turn) later
      | inr out ↦
          let later =
            telescope d rest ((j, (v, k)) ∷ before) after iface weight whole (rw out at e) in
          let none_added : active_weight d i w + total d rest ≡ total d rest =
            omega (arith, no_part d i w out) in
          rw none_added later
    ]

module _ (float : Float) where
  open float use {F, of_int, div}

  -- The quotients of the parts.
  unfoldable pub quotients : Map Text (ℕ × ℕ) → Map Text F
  quotients [] = []
  quotients ((iface, (weight, whole)) ∷ rest) =
      (iface, div (of_int (pos weight)) (of_int (pos whole))) ∷ quotients rest

  shares-quotients :
      (d : Data) (m : Map Text ℕ)
      → FloatLaws float
      → total d m ≤ exact_max
      → AreLarge (parts d m)
      → shares float d m ≡ quotients (parts d m)
  unfolding shares parts quotients total
  shares-quotients d [] laws small large = refl
  shares-quotients d ((iface, weight) ∷ rest) laws small large =
      let later : total d rest ≤ exact_max = omega arith in
      elim (Bool-cases (is_active d iface && ltb 0 weight)) [
        | inl in_turn ↦
            let big = rw in_turn at large in
            let added = full_part d iface weight in_turn in
            let above =
              laws.above_cent-div weight (weight + total d rest) (omega (arith, added)) big.0
                (omega (arith, added)) in
            ground (arith, in_turn, above, shares-quotients d rest laws later big.1)
        | inr out ↦
            let none_added = no_part d iface weight out in
            ground (arith, out, shares-quotients d rest laws later (rw out at large))
      ]

  -- For a rule that balances, over interfaces in the order of their names whose active weights sum
  -- up to at most 2^24 and none of which has one percent or less of what it is weighed against: the
  -- weights are the quotients of the parts, and for each part, the chance to pass the rules before
  -- it times its own quotient is its weight over the sum of all active weights, as exact fractions.
  pub get_new_weights_proportion :
      (d : Data) (rule : Rule) (before after : Map Text (ℕ × ℕ)) (iface : Text) (weight whole : ℕ)
      → FloatLaws float
      → rule.failover ≡ false
      → IsSorted rule.iface_dist_coll
      → total d rule.iface_dist_coll ≤ exact_max
      → AreLarge (parts d rule.iface_dist_coll)
      → parts d rule.iface_dist_coll ≡ before ++ (iface, (weight, whole)) ∷ after
      → (get_new_weights float d rule ≡ quotients (parts d rule.iface_dist_coll))
        × (passed before * weight * total d rule.iface_dist_coll ≡ weight * (wholes before * whole))
  get_new_weights_proportion d rule before after iface weight whole laws f s h large e = (
    get_new_weights-sharing float d rule laws f s h
        ∙ shares-quotients d rule.iface_dist_coll laws h large,
    scaled (passed before) weight (total d rule.iface_dist_coll)
        ∙ ap (λ n. weight * n) (telescope d rule.iface_dist_coll before after iface weight whole e),
  )
    where
      scaled : (p w t : ℕ) → p * w * t ≡ w * (p * t)
      scaled p w t = ap (λ n. n * t) (mul_comm p w) ∙ mul_assoc w p t
