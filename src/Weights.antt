-- ===== src/Weights.antt =====
-- src/lbdecision.cc: `LBDecision::get_new_weights`, the share of each interface in a rule.
pub mod Append
pub mod Sharing
pub mod Proportion
pub mod Track
pub mod Failover
use vyatta_wanloadbalance.Common.{
  ℕ, Bool, true, false, List, [], ◌∷◌, Text, Map, ℤ, pos, ◌+ℤ◌, ◌-ℤ◌, eq_ℤ, ltb_ℤ, insert,
  map_values, text_key, if◌then◌else◌,
}
use vyatta_wanloadbalance.Data.{Data, Rule}
use vyatta_wanloadbalance.State.{is_active}
use vyatta_wanloadbalance.Float.{Float}

module _ (float : Float) where
  open float use {F, of_int, div, positive, below_cent, to_int}

  -- The weights collected so far, and `group`. The sums stay below the range of `int`.
  abbrev pub Collected : Type 0
  Collected = Map Text F × ℤ

  -- One round of the first loop.
  unfoldable pub collect_one : Data → Bool → Text → ℕ → Collected → Collected
  collect_one d failover iface weight (weights, group) =
      if failover
      then if is_active d iface
        then (
          insert iface (of_int (pos weight)) (
              if ltb_ℤ group (pos weight)
              then map_values (λ _ _. of_int (pos 0)) weights
              else weights),
          pos weight,
        )
        else (insert iface (of_int (pos 0)) weights, group)
      else if is_active d iface
      then (insert iface (of_int (pos weight)) weights, group +ℤ pos weight)
      else (insert iface (of_int (pos 0)) weights, group)

  unfoldable pub collect : Data → Bool → Map Text ℕ → Collected → Collected
  collect d failover [] c = c
  collect d failover ((iface, weight) ∷ rest) c =
      collect d failover rest (collect_one d failover iface weight c)

  -- The second loop: each weight over what is left of `group`, less the shares below .01.
  unfoldable pub normalise : ℤ → Map Text F → Map Text F
  normalise group [] = []
  normalise group ((iface, weight) ∷ rest) =
      let w = if positive weight then div weight (of_int group) else of_int (pos 0) in
      let later = normalise (group -ℤ to_int weight) rest in
      if below_cent w then later else (iface, w) ∷ later

  unfoldable pub get_new_weights : Data → Rule → Map Text F
  get_new_weights d rule =
      let (weights, group) = collect d rule.failover rule.iface_dist_coll ([], pos 0) in
      if eq_ℤ group (pos 0) then [] else normalise group weights
