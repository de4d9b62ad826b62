-- ===== src/Factory/Process.antt =====
-- src/lbdatafactory.cc: `LBDataFactory::process`, which gives a line of the configuration to the
-- handler of its place.
use vyatta_wanloadbalance.Common.{
  true, ◌&&◌, List, [], Option, some, Text, ℤ, pos, eq_ℤ, ltb_ℤ, get_or, lit, lower, is_empty,
  text_eq, if◌then◌else◌,
}
use vyatta_wanloadbalance.Data.{Data}
use vyatta_wanloadbalance.Factory.{DataFactory}
use vyatta_wanloadbalance.Factory.Healths.{
  process_health, process_health_interface, process_test_number, process_type, process_target,
  process_resptime, process_udp, process_user,
}
use vyatta_wanloadbalance.Factory.Rules.{
  process_rule, process_rule_source, process_rule_destination, process_rule_inbound_interface,
  process_rule_interface, process_rule_protocol, process_rule_exclude, process_rule_failover,
  process_rule_enablesourcebasedrouting, process_rule_limit,
}

-- A write to a global setting.
unfoldable pub with_data : (Data → Data) → DataFactory → Option DataFactory
with_data g f = some (record f { lb_data = g f.lb_data })

unfoldable pub process_disablesourcenat : Text → Text → DataFactory → Option DataFactory
unfolding with_data
process_disablesourcenat key value = with_data (λ d. record d { disable_source_nat = true })

unfoldable pub process_enablelocaltraffic : Text → Text → DataFactory → Option DataFactory
unfolding with_data
process_enablelocaltraffic key value = with_data (λ d. record d { enable_local_traffic = true })

unfoldable pub process_stickyinboundconnections : Text → Text → DataFactory → Option DataFactory
unfolding with_data
process_stickyinboundconnections key value =
    with_data (λ d. record d { sticky_inbound_connections = true })

unfoldable pub process_flushconntrack : Text → Text → DataFactory → Option DataFactory
unfolding with_data
process_flushconntrack key value = with_data (λ d. record d { flush_conntrack = true })

unfoldable pub process_hook : Text → Text → DataFactory → Option DataFactory
unfolding with_data
process_hook key value = with_data (λ d. if is_empty value then d else record d { hook = value })

-- The branches under `path[0] == "health"`.
unfoldable pub process_in_health : ℤ → Text → Text → Text → DataFactory → Option DataFactory
process_in_health depth key l_key l_value f =
    if eq_ℤ depth (pos 2) && text_eq key (lit "interface")
    then process_health l_key l_value f
    else if eq_ℤ depth (pos 2)
    then process_health_interface l_key l_value f
    else if eq_ℤ depth (pos 3)
    then process_test_number l_key l_value f
    else if eq_ℤ depth (pos 4) && text_eq key (lit "type")
    then process_type l_key l_value f
    else if eq_ℤ depth (pos 4) && text_eq key (lit "target")
    then process_target l_key l_value f
    else if eq_ℤ depth (pos 4) && text_eq key (lit "resp-time")
    then process_resptime l_key l_value f
    else if eq_ℤ depth (pos 4) && text_eq key (lit "ttl")
    then process_udp l_key l_value f
    else if eq_ℤ depth (pos 4) && text_eq key (lit "port")
    then process_udp l_key l_value f
    else if eq_ℤ depth (pos 4) && text_eq key (lit "test-script")
    then process_user l_key l_value f
    else some f

-- The branches under `path[0] == "rule"`.
unfoldable pub process_in_rule : ℤ → Text → Text → Text → DataFactory → Option DataFactory
process_in_rule depth place l_key l_value f =
    let deep = ltb_ℤ (pos 0) depth in
    let deeper = ltb_ℤ (pos 1) depth in
    if deep && text_eq place (lit "source")
    then process_rule_source l_key l_value f
    else if deep && text_eq place (lit "destination")
    then process_rule_destination l_key l_value f
    else if deep && text_eq place (lit "inbound-interface")
    then process_rule_inbound_interface l_key l_value f
    else if deeper && text_eq place (lit "interface")
    then process_rule_interface l_key l_value f
    else if deep && text_eq place (lit "protocol")
    then process_rule_protocol l_key l_value f
    else if deep && text_eq place (lit "exclude")
    then process_rule_exclude l_key l_value f
    else if deep && text_eq place (lit "failover")
    then process_rule_failover l_key l_value f
    else if deep && text_eq place (lit "per-packet-balancing")
    then process_rule_enablesourcebasedrouting l_key l_value f
    else if deeper && text_eq place (lit "limit")
    then process_rule_limit l_key l_value f
    else process_rule l_key l_value f

-- `LBDataFactory::process`.
unfoldable pub process : List Text → ℤ → Text → Text → DataFactory → Option DataFactory
process path depth key value f =
    let l_key = lower key in
    let l_value = lower value in
    let top = get_or path 0 [] in
    if text_eq top (lit "disable-source-nat")
    then process_disablesourcenat l_key l_value f
    else if text_eq top (lit "enable-local-traffic")
    then process_enablelocaltraffic l_key l_value f
    else if text_eq top (lit "sticky-connections")
    then if text_eq l_value (lit "inbound")
      then process_stickyinboundconnections l_key l_value f
      else some f
    else if text_eq top (lit "flush-conntrack")
    then process_flushconntrack l_key l_value f
    else if text_eq top (lit "hook")
    then process_hook l_key l_value f
    else if text_eq top (lit "health")
    then process_in_health depth key l_key l_value f
    else if text_eq top (lit "rule")
    then process_in_rule depth (get_or path 1 []) l_key l_value f
    else some f
