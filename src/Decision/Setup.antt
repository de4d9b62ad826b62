-- ===== src/Decision/Setup.antt =====
-- src/lbdecision.cc: `LBDecision::init`, the chains, marks and routes that are there before the first
-- cycle.
pub mod Chains
use vyatta_wanloadbalance.Common.{
  ℕ, ◌+◌, ◌==◌, Bool, true, false, List, [], ◌∷◌, ◌++◌, Text, Map, lit, is_empty, text_eq,
  hexadecimal, if◌then◌else◌,
}
use vyatta_wanloadbalance.Data.{Data, Health}
use vyatta_wanloadbalance.Decision.Shell.{
  Command, new_chain, flush_chain, append_rule, insert_rule, delete_rule, add_snat, shell, System,
  Shell, execute, execute_all,
}
use vyatta_wanloadbalance.Decision.Paths.{mark_offset, table_of, default_route, fetch_iface_addr}

unfoldable pub chain_pre : Text
chain_pre = lit "WANLOADBALANCE_PRE"

unfoldable pub chain_out : Text
chain_out = lit "WANLOADBALANCE_OUT"

-- The chain of an interface, and the one for the connections that come in on it.
unfoldable pub chain_isp : Text → Text
chain_isp iface = lit "ISP_" ++ iface

unfoldable pub chain_isp_in : Text → Text
chain_isp_in iface = lit "ISP_" ++ (iface ++ lit "_IN")

unfoldable pub nat_setup : Data → List Command
nat_setup d =
    if d.disable_source_nat
    then []
    else shell (lit "nft add chain ip nat WANLOADBALANCE")
      ∷ shell (lit "nft flush chain ip nat WANLOADBALANCE")
      ∷ shell (lit "nft flush chain ip nat VYOS_PRE_SNAT_HOOK")
      ∷ shell (lit "nft insert rule ip nat VYOS_PRE_SNAT_HOOK counter jump WANLOADBALANCE")
      ∷ []

unfoldable pub mangle_setup : Data → List Command
mangle_setup d =
    new_chain chain_pre
    ∷ flush_chain chain_pre
    ∷ append_rule chain_pre (lit "-j ACCEPT")
    ∷ delete_rule (lit "PREROUTING") (lit "-j " ++ chain_pre)
    ∷ insert_rule (lit "PREROUTING") (lit "1 -j " ++ chain_pre)
    ∷ (if d.enable_local_traffic
        then new_chain chain_out
          ∷ flush_chain chain_out
          ∷ append_rule chain_out (lit "-j ACCEPT")
          ∷ delete_rule (lit "OUTPUT") (lit "-j " ++ chain_out)
          ∷ insert_rule (lit "OUTPUT") (lit "1 -j " ++ chain_out)
          ∷ []
        else [])

-- The commands for one interface, up to its routing rule.
unfoldable pub iface_setup : Data → Text → Health → List Command
iface_setup d iface h =
    let buf = table_of h in
    new_chain (chain_isp iface)
    ∷ flush_chain (chain_isp iface)
    ∷ append_rule (chain_isp iface) (lit "-j CONNMARK --set-mark " ++ buf)
    ∷ append_rule (chain_isp iface) (lit "-j MARK --set-mark " ++ buf)
    ∷ append_rule (chain_isp iface) (lit "-j ACCEPT")
    ∷ ((if d.sticky_inbound_connections
          then new_chain (chain_isp_in iface)
            ∷ flush_chain (chain_isp_in iface)
            ∷ append_rule (chain_isp_in iface) (lit "-j CONNMARK --set-mark " ++ buf)
            ∷ insert_rule (lit "PREROUTING")
                (lit "-i " ++ (iface ++ (lit " -m state --state NEW -j " ++ chain_isp_in iface)))
            ∷ []
          else [])
        ++ ((if text_eq h.nexthop (lit "dhcp")
              then if is_empty h.dhcp_nexthop
                then []
                else default_route buf iface h.dhcp_nexthop ∷ []
              else default_route buf iface h.nexthop ∷ [])
            ++ shell (lit "ip rule delete table " ++ buf)
              ∷ shell (
                  lit "ip rule add fwmark "
                  ++ (hexadecimal (h.interface_index + mark_offset) ++ (lit " table " ++ buf)))
              ∷ []))

module _ (sys : System) where
  -- One round of the loop over the interfaces.
  unfoldable pub init_iface : Data → Text → Health → Shell sys → Health × Shell sys
  init_iface d iface h s =
      let s1 = execute_all sys (iface_setup d iface h) s in
      let (new_addr, s2) = fetch_iface_addr sys iface s1 in
      let (err, _, s3) = execute sys (add_snat (table_of h) new_addr) false s2 in
      if d.disable_source_nat
      then (h, s1)
      else (if err == 0 then record h { address = new_addr } else h, s3)

  unfoldable pub init_each : Data → Map Text Health → Shell sys → Map Text Health × Shell sys
  unfolding init_iface
  init_each d [] s = ([], s)
  init_each d ((iface, h) ∷ rest) s =
      let (h', s1) = init_iface d iface h s in
      let (rest', s2) = init_each d rest s1 in ((iface, h') ∷ rest', s2)

  -- `LBDecision::init`.
  unfoldable pub init : Data → Shell sys → Data × Shell sys
  unfolding init_each
  init d s =
      let s1 = execute_all sys (nat_setup d ++ mangle_setup d) s in
      let (coll, s2) = init_each d d.iface_health_coll s1 in
      (
        record d { iface_health_coll = coll },
        execute_all sys (shell (lit "ip route flush cache") ∷ []) s2,
      )
