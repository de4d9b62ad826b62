-- ===== src/Decision/Rules.antt =====
-- src/lbdecision.cc: `LBDecision::run`, which applies the rules again after a change of state.
pub mod Cycle
pub mod Chains
use vyatta_wanloadbalance.Common.{
  ℕ, Bool, true, false, List, [], ◌∷◌, ◌++◌, Text, Map, ℤ, lit, is_empty, print_int, if◌then◌else◌,
}
use vyatta_wanloadbalance.Data.{Data, Health, Rule}
use vyatta_wanloadbalance.State.{state_changed}
use vyatta_wanloadbalance.Float.{Float}
use vyatta_wanloadbalance.Weights.{get_new_weights}
use vyatta_wanloadbalance.Decision.Shell.{
  Command, new_chain, flush_chain, append_rule, shell, System, Shell, execute, execute_all,
}
use vyatta_wanloadbalance.Decision.Filter.{get_application_cmd, get_limit_cmd}
use vyatta_wanloadbalance.Decision.Paths.{update_paths}
use vyatta_wanloadbalance.Decision.Setup.{chain_pre, chain_out, chain_isp}

-- The chains of a rule with a limit.
unfoldable pub chain_pre_limit : ℤ → Text
chain_pre_limit num = lit "WANLOADBALANCE_PRE_LIMIT_" ++ print_int num

unfoldable pub chain_out_limit : ℤ → Text
chain_out_limit num = lit "WANLOADBALANCE_OUT_LIMIT_" ++ print_int num

-- The same rule for the traffic that passes through, and for local traffic where that is balanced.
-- The chain and the filter depend on whether the rule has a limit.
unfoldable pub both_chains : Data → ℤ → Rule → Text → List Command
both_chains d num rule target =
    let local = d.enable_local_traffic in
    if rule.limit
    then append_rule (chain_pre_limit num) target
      ∷ (if local then append_rule (chain_out_limit num) target ∷ [] else [])
    else append_rule chain_pre (get_application_cmd rule false false ++ (lit " " ++ target))
      ∷ (if local
          then append_rule chain_out
              (get_application_cmd rule true rule.exclude ++ (lit " " ++ target))
            ∷ []
          else [])

-- Without source based routing only the first packet of a connection is balanced.
unfoldable pub new_state : Rule → Text
new_state rule = if rule.enable_source_based_routing then [] else lit "-m state --state NEW "

-- An interface that gets its share by chance.
unfoldable pub chance_commands : Data → ℤ → Rule → Text → Text → List Command
unfolding new_state
chance_commands d num rule iface probability = both_chains d num rule (
    new_state rule
    ++ (lit "-m statistic --mode random --probability "
        ++ (probability ++ (lit " -j " ++ chain_isp iface))))

-- The last interface, which takes the rest. Behind it, with source based routing and a limit, what
-- has been marked is accepted.
unfoldable pub last_commands : Data → ℤ → Rule → Text → List Command
unfolding new_state
last_commands d num rule iface =
    let jump = lit "-j " ++ chain_isp iface in
    if rule.enable_source_based_routing
    then if rule.limit
      then append_rule (chain_pre_limit num) jump
        ∷ append_rule (chain_pre_limit num) (lit "-j ACCEPT")
        ∷ (if d.enable_local_traffic
            then append_rule (chain_out_limit num) jump
              ∷ append_rule (chain_out_limit num) (lit "-j ACCEPT")
              ∷ []
            else [])
      else both_chains d num rule jump
    else both_chains d num rule (new_state rule ++ jump)

-- The rule jumps to its limit chains, which are made anew.
unfoldable pub limit_commands : Data → ℤ → Rule → List Command
limit_commands d num rule =
    if rule.limit
    then new_chain (chain_pre_limit num)
      ∷ flush_chain (chain_pre_limit num)
      ∷ append_rule chain_pre (
          get_application_cmd rule false false
          ++ (lit " " ++ (get_limit_cmd rule ++ (lit " -j " ++ chain_pre_limit num))))
      ∷ (if d.enable_local_traffic
          then new_chain (chain_out_limit num)
            ∷ flush_chain (chain_out_limit num)
            ∷ append_rule chain_out (
                get_application_cmd rule true rule.exclude
                ++ (lit " " ++ (get_limit_cmd rule ++ (lit " -j " ++ chain_out_limit num))))
            ∷ []
          else [])
    else []

-- The packets of a connection that has its mark.
unfoldable pub restore_commands : Data → Rule → List Command
restore_commands d rule =
    append_rule chain_pre
      (get_application_cmd rule false false ++ lit " -j CONNMARK --restore-mark")
    ∷ (if d.enable_local_traffic
        then append_rule chain_out
            (get_application_cmd rule true rule.exclude ++ lit " -j CONNMARK --restore-mark")
          ∷ []
        else [])

unfoldable pub exclude_commands : Data → Rule → List Command
exclude_commands d rule =
    append_rule chain_pre (get_application_cmd rule false false ++ lit " -j ACCEPT")
    ∷ (if d.enable_local_traffic
        then append_rule chain_out (get_application_cmd rule true rule.exclude ++ lit " -j ACCEPT")
          ∷ []
        else [])

-- What precedes the rules: the old ones are flushed, and the connections if that is configured.
unfoldable pub flush_commands : Data → List Command
flush_commands d =
    flush_chain chain_pre
    ∷ ((if d.enable_local_traffic
          then flush_chain chain_out
            ∷ append_rule chain_out (lit "-m mark ! --mark 0 -j ACCEPT")
            ∷ append_rule chain_out (lit "--proto icmp --icmp-type any -j ACCEPT")
            ∷ append_rule chain_out (lit "--source 127.0.0.1/8 --destination 127.0.0.1/8 -j ACCEPT")
            ∷ []
          else [])
        ++ (if d.flush_conntrack
            then shell (lit "conntrack --delete") ∷ shell (lit "conntrack -F expect") ∷ []
            else []))

module _ (sys : System) where
  open sys use {set_hook_env, unset_hook_env}

  -- The hook script, once for each interface that has changed.
  unfoldable pub run_hooks : Text → Map Text Text → Shell sys → Shell sys
  unfolding execute
  run_hooks hook [] s = s
  run_hooks hook ((iface, state) ∷ rest) s =
      let s1 = record s { world = set_hook_env iface state s.world } in
      let s2 = (execute sys (shell hook) false s1).2 in
      run_hooks hook rest
        (if is_empty hook then s else record s2 { world = unset_hook_env s2.world })

module _ (float : Float) where
  open float use {F, fixed}

  -- The loop over the weights: all but the last by chance.
  unfoldable pub weight_commands : Data → ℤ → Rule → Map Text F → List Command
  weight_commands d num rule [] = []
  weight_commands d num rule ((iface, w) ∷ []) = last_commands d num rule iface
  weight_commands d num rule ((iface, w) ∷ next ∷ rest) =
      chance_commands d num rule iface (fixed w) ++ weight_commands d num rule (next ∷ rest)

  unfoldable pub balance_commands : Data → ℤ → Rule → List Command
  balance_commands d num rule =
      let weights = get_new_weights float d rule in
      if is_empty weights
      then []
      else limit_commands d num rule
        ++ (weight_commands d num rule weights ++ restore_commands d rule)

  -- One round of the loop over the rules.
  unfoldable pub rule_commands : Data → ℤ → Rule → List Command
  rule_commands d num rule =
      if rule.exclude then exclude_commands d rule else balance_commands d num rule

  unfoldable pub rules_commands : Data → Map ℤ Rule → List Command
  rules_commands d [] = []
  rules_commands d ((num, rule) ∷ rest) = rule_commands d num rule ++ rules_commands d rest

  module _ (sys : System) where
    -- `LBDecision::run`.
    unfoldable pub run : (Text → ℕ) → Data → Shell sys → Data × Shell sys
    run clock d s =
        let (d1, s1) = update_paths sys d s in
        let (changed, d2) = state_changed clock d1 in
        if is_empty changed then (d2, s1) else (
          d2,
          execute_all sys (flush_commands d2 ++ rules_commands d2 d2.lb_rule_coll)
              (run_hooks sys d2.hook changed s1),
        )
