-- ===== src/Decision/Rules/Chains.antt =====
-- The chains that the commands of the rules create.
use vyatta_wanloadbalance.Common.{
  ◌≡◌, refl, ◌∙◌, inl, inr, [], ◌∷◌, ◌++◌, Text, Map, ℤ, lit, Bool-cases, is_empty, arith,
}
use vyatta_wanloadbalance.Data.{Data, Rule}
use vyatta_wanloadbalance.Float.{Float}
use vyatta_wanloadbalance.Decision.Shell.Log.{Has, Has-split, created, created-append}
use vyatta_wanloadbalance.Decision.Setup.{chain_isp}
use vyatta_wanloadbalance.Weights.{get_new_weights}
use vyatta_wanloadbalance.Decision.Rules.{
  both_chains, new_state, chance_commands, last_commands, limit_commands, restore_commands,
  exclude_commands, weight_commands, balance_commands,
}

-- Balancing and restoring create no chain.
created-both_chains :
    (d : Data) (num : ℤ) (rule : Rule) (target : Text)
    → created (both_chains d num rule target) ≡ []
unfolding both_chains
created-both_chains d num rule target = ground arith

created-last_commands :
    (d : Data) (num : ℤ) (rule : Rule) (iface : Text)
    → created (last_commands d num rule iface) ≡ []
unfolding last_commands new_state
created-last_commands d num rule iface = ground (
  arith,
  created-both_chains d num rule (lit "-j " ++ chain_isp iface),
  created-both_chains d num rule (lit "-m state --state NEW " ++ (lit "-j " ++ chain_isp iface)),
)

created-chance_commands :
    (d : Data) (num : ℤ) (rule : Rule) (iface probability : Text)
    → created (chance_commands d num rule iface probability) ≡ []
unfolding chance_commands
created-chance_commands d num rule iface probability = created-both_chains d num rule _

created-restore_commands : (d : Data) (rule : Rule) → created (restore_commands d rule) ≡ []
unfolding restore_commands
created-restore_commands d rule = ground arith

pub created-exclude_commands : (d : Data) (rule : Rule) → created (exclude_commands d rule) ≡ []
unfolding exclude_commands
created-exclude_commands d rule = ground arith

module _ (float : Float) where
  open float use {F, fixed}

  created-weight_commands :
      (d : Data) (num : ℤ) (rule : Rule) (weights : Map Text F)
      → created (weight_commands float d num rule weights) ≡ []
  unfolding weight_commands
  created-weight_commands d num rule [] = refl
  created-weight_commands d num rule ((iface, w) ∷ []) = created-last_commands d num rule iface
  created-weight_commands d num rule ((iface, w) ∷ next ∷ rest) =
      created-append (chance_commands d num rule iface (fixed w)) _
      ∙ rw (created-chance_commands d num rule iface (fixed w))
          (created-weight_commands d num rule (next ∷ rest))

  -- A rule creates its limit chains at most.
  pub created-balance_commands :
      (d : Data) (num : ℤ) (rule : Rule) (chain : Text)
      → Has chain (created (balance_commands float d num rule))
      → Has chain (created (limit_commands d num rule))
  unfolding balance_commands
  created-balance_commands d num rule chain made =
      elim (Bool-cases (is_empty (get_new_weights float d rule))) [
        | inl nothing ↦ absurd (rw nothing at made)
        | inr weights ↦ elim (Has-split chain _ _ (rw (weights, created-append) at made)) [
          | inl limit ↦ limit
          | inr other ↦
              absurd
                (rw (created-append, created-weight_commands, created-restore_commands) at other)
        ]
      ]
