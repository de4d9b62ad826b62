-- ===== src/Weights/Sharing.antt =====
-- Rules that share the load: each active interface gets its weight over the sum of the weights from
-- it on.
use mathlib.Core.List.{append_assoc, append-nil}
use vyatta_wanloadbalance.Common.{
  ℕ, ◌+◌, ◌≤◌, ◌≡◌, refl, sym, ap, ◌∙◌, inl, inr, false, not, ◌&&◌, [], ◌∷◌, ◌++◌, Text, Map, pos,
  ◌+ℤ◌, ◌-ℤ◌, eq_ℤ, ltb, int_laws, arith, text_key, IsSorted, if◌then◌else◌, Bool-cases, Option,
  none, some, Option-cases, or_else, last?,
}
use mathlib.Core.Path.{ap₂}
use native.Mathlib.Decide.{ℕ_discrete}
use vyatta_wanloadbalance.Data.{Data, Rule}
use vyatta_wanloadbalance.State.{is_active}
use vyatta_wanloadbalance.Float.{Float, FloatLaws, exact_max}
use vyatta_wanloadbalance.Weights.{collect_one, collect, normalise, get_new_weights}
use vyatta_wanloadbalance.Weights.Append.{
  Below, Before, insert-eq-append, Before-append, Before-nil,
}

-- What an interface adds to the sum.
abbrev pub active_weight : Data → Text → ℕ → ℕ
active_weight d iface weight = if is_active d iface then weight else 0

-- The sum of the weights of the active interfaces.
unfoldable pub total : Data → Map Text ℕ → ℕ
total d [] = 0
total d ((iface, weight) ∷ rest) = active_weight d iface weight + total d rest

add_pos : (a b : ℕ) → pos a +ℤ pos b ≡ pos (a + b)
add_pos a b = omega int_laws

sub_pos : (a b : ℕ) → pos (a + b) -ℤ pos a ≡ pos b
sub_pos a b = omega int_laws

module _ (float : Float) where
  open float use {F, of_int, div, positive, below_cent, to_int}

  -- The shares as a rule that balances means them: the interfaces in order, each active one with its
  -- part of what the interfaces before it leave, but none for a part that rounds to less than .01.
  unfoldable pub shares : Data → Map Text ℕ → Map Text F
  shares d [] = []
  shares d ((iface, weight) ∷ rest) =
      let part = div (of_int (pos weight)) (of_int (pos (weight + total d rest))) in
      let later = shares d rest in
      if is_active d iface && (ltb 0 weight && not (below_cent part))
      then (iface, part) ∷ later
      else later

  -- The weights as the first loop stores them.
  base : Data → Map Text ℕ → Map Text F
  base d [] = []
  base d ((iface, weight) ∷ rest) =
      (iface, of_int (pos (active_weight d iface weight))) ∷ base d rest

  collect_one-sharing :
      (d : Data) (iface : Text) (weight : ℕ) (weights : Map Text F) (group : ℕ)
      → Below iface weights
      → collect_one float d false iface weight (weights, pos group) ≡ (
        weights ++ (iface, of_int (pos (active_weight d iface weight))) ∷ [],
        pos (group + active_weight d iface weight),
      )
  unfolding collect_one
  collect_one-sharing d iface weight weights group b = elim (Bool-cases (is_active d iface)) [
    | inl e ↦ rw (e, insert-eq-append iface (of_int (pos weight)) weights b, add_pos group weight)
    | inr e ↦
        rw (e, insert-eq-append iface (of_int (pos 0)) weights b)
          (ap (λ n. (weights ++ (iface, of_int (pos 0)) ∷ [], pos n)) (omega arith))
  ]

  collect-sharing :
      (d : Data) (rest : Map Text ℕ) (weights : Map Text F) (group : ℕ)
      → IsSorted rest
      → Before weights rest
      → collect float d false rest (weights, pos group)
        ≡ (weights ++ base d rest, pos (group + total d rest))
  unfolding collect base total
  collect-sharing d [] weights group s b =
      ap₂ (λ (m : Map Text F) n. (m, pos n)) (sym (append-nil weights)) (omega arith)
  collect-sharing d ((iface, weight) ∷ rest) weights group s b =
      rw (collect_one-sharing d iface weight weights group b) (
        collect-sharing d rest _ _ s.1 (Before-append iface _ weights rest s.0 b)
        ∙ ap₂ (λ (m : Map Text F) n. (m, pos n)) (append_assoc weights _ (base d rest))
            (omega arith))

  normalise-base :
      (d : Data) (rest : Map Text ℕ)
      → FloatLaws float
      → total d rest ≤ exact_max
      → normalise float (pos (total d rest)) (base d rest) ≡ shares d rest
  unfolding normalise base shares total
  normalise-base d [] laws h = refl
  normalise-base d ((iface, weight) ∷ rest) laws h =
      let small : active_weight d iface weight ≤ exact_max = omega arith in
      let later : total d rest ≤ exact_max = omega arith in
      ground (
        arith,
        laws.positive-of_int (active_weight d iface weight) small,
        laws.to_int-of_int (active_weight d iface weight) small,
        laws.below_cent_zero,
        sub_pos (active_weight d iface weight) (total d rest),
        normalise-base d rest laws later,
      )

  shares_none : (d : Data) (rest : Map Text ℕ) → total d rest ≡ 0 → shares d rest ≡ []
  unfolding shares total
  shares_none d [] e = refl
  shares_none d ((iface, weight) ∷ rest) e =
      let later : total d rest ≡ 0 = omega arith in ground (arith, shares_none d rest later)

  -- For a rule that balances, over interfaces in the order of their names whose active weights
  -- sum up to at most 2^24, the weights are the shares: each active interface with its part of
  -- what the ones before it leave.
  pub get_new_weights-sharing :
      (d : Data) (rule : Rule)
      → FloatLaws float
      → rule.failover ≡ false
      → IsSorted rule.iface_dist_coll
      → total d rule.iface_dist_coll ≤ exact_max
      → get_new_weights float d rule ≡ shares d rule.iface_dist_coll
  unfolding get_new_weights
  get_new_weights-sharing d rule laws f s h =
      let start = Before-nil {V = F} [] rule.iface_dist_coll refl in
      let sum : 0 + total d rule.iface_dist_coll ≡ total d rule.iface_dist_coll = omega arith in
      rw (f, collect-sharing d rule.iface_dist_coll [] 0 s start, sum)
        (elim (ℕ_discrete (total d rule.iface_dist_coll) 0) [
          | yes e ↦ rw e (sym (shares_none d rule.iface_dist_coll e))
          | no ne ↦
              let some_active : eq_ℤ (pos (total d rule.iface_dist_coll)) (pos 0) ≡ false =
                ground arith in
              rw some_active (normalise-base d rule.iface_dist_coll laws h)
        ])

  -- The last active interface with a weight.
  unfoldable pub last_active : Data → Map Text ℕ → Option (Text × ℕ)
  last_active d [] = none
  last_active d ((iface, weight) ∷ rest) =
      or_else (last_active d rest)
        (if is_active d iface && ltb 0 weight then some (iface, weight) else none)

  -- Its share.
  abbrev pub whole : Option (Text × ℕ) → Option (Text × F)
  whole none = none
  whole (some (iface, weight)) = some (iface, div (of_int (pos weight)) (of_int (pos weight)))

  last_active-none : (d : Data) (rest : Map Text ℕ) → last_active d rest ≡ none → total d rest ≡ 0
  unfolding last_active total
  last_active-none d [] e = refl
  last_active-none d ((iface, weight) ∷ rest) e = ground (arith, last_active-none d rest)

  last-shares :
      (d : Data) (rest : Map Text ℕ)
      → FloatLaws float
      → total d rest ≤ exact_max
      → last? (shares d rest) ≡ whole (last_active d rest)
  unfolding shares last_active total
  last-shares d [] laws h = refl
  last-shares d ((iface, weight) ∷ rest) laws h =
      let later : total d rest ≤ exact_max = omega arith in
      elim (Option-cases (last_active d rest)) [
        | inl e ↦
            let nothing : total d rest ≡ 0 = last_active-none d rest e in
            let self : weight + total d rest ≡ weight = omega arith in
            rw (e, shares_none d rest nothing, self)
              (ground (arith, laws.above_cent-div weight weight))
        | inr (p, e) ↦ ground (arith, last-shares d rest laws later)
      ]

  -- For a rule that balances, over interfaces in the order of their names whose active weights sum
  -- up to at most 2^24: the last of the new weights, which `run` turns into a jump without a
  -- condition, is the weight of the last active interface with a weight over that weight itself, and
  -- there is no new weight if no active interface has a weight.
  pub last-get_new_weights :
      (d : Data) (rule : Rule)
      → FloatLaws float
      → rule.failover ≡ false
      → IsSorted rule.iface_dist_coll
      → total d rule.iface_dist_coll ≤ exact_max
      → last? (get_new_weights float d rule) ≡ whole (last_active d rule.iface_dist_coll)
  last-get_new_weights d rule laws f s h =
      ap last? (get_new_weights-sharing d rule laws f s h)
      ∙ last-shares d rule.iface_dist_coll laws h
