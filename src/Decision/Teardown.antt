-- ===== src/Decision/Teardown.antt =====
-- src/lbdecision.cc: `LBDecision::shutdown`, which takes the chains, rules and routes away.
pub mod Cleanup
pub mod Config
use vyatta_wanloadbalance.Common.{
  Bool, true, false, List, [], ◌∷◌, ◌++◌, Text, Map, ℤ, lit, if◌then◌else◌,
}
use vyatta_wanloadbalance.Data.{Data, Health, Rule}
use vyatta_wanloadbalance.Decision.Shell.{
  Command, flush_chain, drop_chain, delete_rule, shell, System, Shell, execute_all,
}
use vyatta_wanloadbalance.Decision.Paths.{table_of}
use vyatta_wanloadbalance.Decision.Setup.{chain_pre, chain_out, chain_isp, chain_isp_in}
use vyatta_wanloadbalance.Decision.Rules.{chain_pre_limit, chain_out_limit}

-- The limit chains of a rule.
unfoldable pub limit_teardown : Bool → ℤ → Rule → List Command
limit_teardown local num rule =
    if rule.limit
    then flush_chain (chain_pre_limit num)
      ∷ drop_chain (chain_pre_limit num)
      ∷ (if local
          then flush_chain (chain_out_limit num) ∷ drop_chain (chain_out_limit num) ∷ []
          else [])
    else []

-- The loop over the rules, with their numbers.
unfoldable pub limits_teardown : Bool → Map ℤ Rule → List Command
limits_teardown local [] = []
limits_teardown local ((num, rule) ∷ rest) =
    limit_teardown local num rule ++ limits_teardown local rest

-- The routes and chains of an interface.
unfoldable pub iface_teardown : Bool → Text → Health → List Command
iface_teardown sticky iface h =
    shell (lit "ip rule del table " ++ table_of h)
    ∷ shell (lit "ip route flush table " ++ table_of h)
    ∷ flush_chain (chain_isp iface)
    ∷ drop_chain (chain_isp iface)
    ∷ (if sticky
        then delete_rule (lit "PREROUTING")
            (lit "-i " ++ (iface ++ (lit " -m state --state NEW -j " ++ chain_isp_in iface)))
          ∷ flush_chain (chain_isp_in iface)
          ∷ drop_chain (chain_isp_in iface)
          ∷ []
        else [])

-- The loop over the interfaces.
unfoldable pub ifaces_teardown : Bool → Map Text Health → List Command
ifaces_teardown sticky [] = []
ifaces_teardown sticky ((iface, h) ∷ rest) =
    iface_teardown sticky iface h ++ ifaces_teardown sticky rest

unfoldable pub nat_teardown : List Command
nat_teardown =
    shell (lit "nft flush chain ip nat WANLOADBALANCE")
    ∷ shell (lit "nft delete chain ip nat WANLOADBALANCE")
    ∷ shell (lit "nft flush chain ip nat VYOS_PRE_SNAT_HOOK")
    ∷ []

unfoldable pub chains_teardown : Bool → List Command
chains_teardown local =
    delete_rule (lit "PREROUTING") (lit "-j " ++ chain_pre)
    ∷ flush_chain chain_pre
    ∷ drop_chain chain_pre
    ∷ (if local
        then delete_rule (lit "OUTPUT") (lit "-j " ++ chain_out)
          ∷ flush_chain chain_out
          ∷ drop_chain chain_out
          ∷ []
        else [])

unfoldable pub shutdown_commands : Data → List Command
shutdown_commands d =
    chains_teardown d.enable_local_traffic
    ++ (limits_teardown d.enable_local_traffic d.lb_rule_coll
        ++ (nat_teardown ++ ifaces_teardown d.sticky_inbound_connections d.iface_health_coll))

-- `LBDecision::shutdown`.
unfoldable pub shutdown : (sys : System) → Data → Shell sys → Shell sys
unfolding shutdown_commands execute_all
shutdown sys d s = execute_all sys (shutdown_commands d) s
