-- ===== src/Decision/Teardown/Cleanup.antt =====
-- The chains that `init` and `run` make, and those that `shutdown` drops.
use vyatta_wanloadbalance.Common.{
  ◌≡◌, ap, inl, inr, true, false, List, [], ◌∷◌, ◌++◌, Text, Map, ℤ, Bool-cases, arith,
  if◌then◌else◌,
}
use vyatta_wanloadbalance.Data.{Data, Health, Rule}
use vyatta_wanloadbalance.Float.{Float}
use vyatta_wanloadbalance.Decision.Shell.{flush_chain, drop_chain}
use vyatta_wanloadbalance.Decision.Shell.Log.{
  Has, Has-left, Has-right, Has-split, created, created-append,
}
use vyatta_wanloadbalance.Decision.Setup.{
  chain_pre, chain_out, chain_isp, chain_isp_in, mangle_setup, iface_setup,
}
use vyatta_wanloadbalance.Decision.Paths.{default_route}
use vyatta_wanloadbalance.Decision.Setup.Chains.{iface_chains}
use vyatta_wanloadbalance.Decision.Rules.{
  chain_pre_limit, chain_out_limit, limit_commands, rule_commands, rules_commands,
}
use vyatta_wanloadbalance.Decision.Teardown.{
  limit_teardown, limits_teardown, iface_teardown, ifaces_teardown, nat_teardown, chains_teardown,
  shutdown_commands,
}
use vyatta_wanloadbalance.Decision.Rules.Chains.{created-exclude_commands, created-balance_commands}

created-iface_setup :
    (d : Data) (iface : Text) (h : Health)
    → created (iface_setup d iface h)
      ≡ chain_isp iface ∷ (if d.sticky_inbound_connections then chain_isp_in iface ∷ [] else [])
unfolding iface_setup default_route
created-iface_setup d iface h = ground arith

iface_dropped :
    (d : Data) (iface : Text) (h : Health) (chain : Text)
    → Has chain (created (iface_setup d iface h))
    → Has (drop_chain chain) (iface_teardown d.sticky_inbound_connections iface h)
unfolding iface_teardown
iface_dropped d iface h chain made = elim (Bool-cases d.sticky_inbound_connections) [
  | inl sticky ↦ rw sticky (in_sticky (rw (created-iface_setup d iface h, sticky) at made))
  | inr plain ↦ rw plain (in_plain (rw (created-iface_setup d iface h, plain) at made))
]
  where
    in_sticky :
        Has chain (chain_isp iface ∷ chain_isp_in iface ∷ [])
        → Has (drop_chain chain) (unfold iface_teardown in iface_teardown true iface h)
    in_sticky (inl e) = inr (inr (inr (inl (ap drop_chain e))))
    in_sticky (inr (inl e)) = inr (inr (inr (inr (inr (inr (inl (ap drop_chain e)))))))
    in_sticky (inr (inr never)) = absurd never

    in_plain :
        Has chain (chain_isp iface ∷ [])
        → Has (drop_chain chain) (unfold iface_teardown in iface_teardown false iface h)
    in_plain (inl e) = inr (inr (inr (inl (ap drop_chain e))))
    in_plain (inr never) = absurd never

iface_chains_dropped :
    (d : Data) (m : Map Text Health) (chain : Text)
    → Has chain (iface_chains d m)
    → Has (drop_chain chain) (ifaces_teardown d.sticky_inbound_connections m)
unfolding iface_chains ifaces_teardown
iface_chains_dropped d [] chain made = absurd made
iface_chains_dropped d ((iface, h) ∷ rest) chain made = elim (Has-split chain _ _ made) [
  | inl here ↦ Has-left _ _ _ (iface_dropped d iface h chain here)
  | inr there ↦ Has-right _ _ _ (iface_chains_dropped d rest chain there)
]

mangle_dropped :
    (d : Data) (chain : Text)
    → Has chain (created (mangle_setup d))
    → Has (drop_chain chain) (chains_teardown d.enable_local_traffic)
unfolding mangle_setup chains_teardown
mangle_dropped d chain made = elim (Bool-cases d.enable_local_traffic) [
  | inl local ↦ rw local (in_local (rw local at made))
  | inr none_local ↦ rw none_local (in_plain (rw none_local at made))
]
  where
    in_local :
        Has chain (chain_pre ∷ chain_out ∷ [])
        → Has (drop_chain chain) (unfold chains_teardown in chains_teardown true)
    in_local (inl e) = inr (inr (inl (ap drop_chain e)))
    in_local (inr (inl e)) = inr (inr (inr (inr (inr (inl (ap drop_chain e))))))
    in_local (inr (inr never)) = absurd never

    in_plain :
        Has chain (chain_pre ∷ [])
        → Has (drop_chain chain) (unfold chains_teardown in chains_teardown false)
    in_plain (inl e) = inr (inr (inl (ap drop_chain e)))
    in_plain (inr never) = absurd never

limit_dropped :
    (d : Data) (num : ℤ) (rule : Rule) (chain : Text)
    → Has chain (created (limit_commands d num rule))
    → Has (drop_chain chain) (limit_teardown d.enable_local_traffic num rule)
unfolding limit_commands limit_teardown
limit_dropped d num rule chain made = elim (Bool-cases rule.limit) [
  | inl limited ↦ elim (Bool-cases d.enable_local_traffic) [
    | inl local ↦ rw (limited, local) (in_local (rw (limited, local) at made))
    | inr plain ↦ rw (limited, plain) (in_plain (rw (limited, plain) at made))
  ]
  | inr free ↦ absurd (rw free at made)
]
  where
    in_local :
        Has chain (chain_pre_limit num ∷ chain_out_limit num ∷ [])
        → Has (drop_chain chain) (
            flush_chain (chain_pre_limit num)
            ∷ drop_chain (chain_pre_limit num)
            ∷ flush_chain (chain_out_limit num)
            ∷ drop_chain (chain_out_limit num)
            ∷ [])
    in_local (inl e) = inr (inl (ap drop_chain e))
    in_local (inr (inl e)) = inr (inr (inr (inl (ap drop_chain e))))
    in_local (inr (inr never)) = absurd never

    in_plain :
        Has chain (chain_pre_limit num ∷ [])
        → Has
            (drop_chain chain)
            (flush_chain (chain_pre_limit num) ∷ drop_chain (chain_pre_limit num) ∷ [])
    in_plain (inl e) = inr (inl (ap drop_chain e))
    in_plain (inr never) = absurd never

module _ (float : Float) where
  open float use {F, fixed}

  rule_dropped :
      (d : Data) (num : ℤ) (rule : Rule) (chain : Text)
      → Has chain (created (rule_commands float d num rule))
      → Has (drop_chain chain) (limit_teardown d.enable_local_traffic num rule)
  unfolding rule_commands
  rule_dropped d num rule chain made = elim (Bool-cases rule.exclude) [
    | inl excluded ↦ absurd (rw created-exclude_commands at (simp excluded at made))
    | inr balanced ↦
        limit_dropped d num rule chain
          (created-balance_commands float d num rule chain (simp balanced at made))
  ]

  rules_dropped :
      (d : Data) (rules : Map ℤ Rule) (chain : Text)
      → Has chain (created (rules_commands float d rules))
      → Has (drop_chain chain) (limits_teardown d.enable_local_traffic rules)
  unfolding rules_commands limits_teardown
  rules_dropped d [] chain made = absurd made
  rules_dropped d ((num, rule) ∷ rest) chain made =
      elim (Has-split chain _ _ (rw created-append at made)) [
        | inl here ↦ Has-left _ _ _ (rule_dropped d num rule chain here)
        | inr there ↦ Has-right _ _ _ (rules_dropped d rest chain there)
      ]

  -- The chains that `init` creates, and those that the rules create in a cycle of `run`.
  abbrev pub made_chains : Data → List Text
  made_chains d =
      created (mangle_setup d)
      ++ (iface_chains d d.iface_health_coll ++ created (rules_commands float d d.lb_rule_coll))

  -- Every chain of the mangle table that `init` creates, and every one that the rules create in a
  -- cycle of `run`, is dropped by one of the commands of `shutdown`.
  pub shutdown_drops :
      (d : Data) (chain : Text)
      → Has chain (made_chains d)
      → Has (drop_chain chain) (shutdown_commands d)
  unfolding shutdown_commands
  shutdown_drops d chain made = elim (Has-split chain (created (mangle_setup d)) _ made) [
    | inl base ↦ Has-left _ _ _ (mangle_dropped d chain base)
    | inr later ↦
        Has-right _ _ _ (elim (Has-split chain (iface_chains d d.iface_health_coll) _ later) [
          | inl iface ↦
              Has-right _ (limits_teardown d.enable_local_traffic d.lb_rule_coll) _ (
                Has-right _ nat_teardown _ (iface_chains_dropped d d.iface_health_coll chain iface))
          | inr rule ↦ Has-left _ _ _ (rules_dropped d d.lb_rule_coll chain rule)
        ])
  ]
