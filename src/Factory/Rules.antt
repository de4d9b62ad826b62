-- ===== src/Factory/Rules.antt =====
-- src/lbdatafactory.cc: the handlers of the `rule` sections. `none` is undefined behaviour.
use vyatta_wanloadbalance.Common.{
  Bool, true, Option, none, some, Text, pos, insert, alter, lit, lower, is_empty, text_eq, int_key,
  text_key, if◌then◌else◌,
}
use vyatta_wanloadbalance.Data.{Rule, new_rule, k_second, k_minute, k_hour}
use vyatta_wanloadbalance.Factory.{unset, past, at, DataFactory, positive_int, alter_rule}

-- `process_rule`. A rule that is there already stays; an illegal number is logged only.
unfoldable pub process_rule : Text → Text → DataFactory → Option DataFactory
process_rule key value f = if is_empty key then some f else elim (positive_int value) [
  | none ↦ some f
  | some num ↦ some (record f {
    lb_data = record f.lb_data { lb_rule_coll = insert (pos num) new_rule f.lb_data.lb_rule_coll };
    rule_iter = at tt (pos num);
  })
]

-- A handler that returns if `_rule_iter` is `end()`, and else writes to its rule.
unfoldable pub with_rule : (Rule → Rule) → DataFactory → Option DataFactory
with_rule g f = elim f.rule_iter [
  | unset ↦ none
  | past _ ↦ some f
  | at _ num ↦ some (alter_rule num g f)
]

-- `strcasecmp(a, b) == 0`.
abbrev same_word : Text → Text → Bool
same_word a b = text_eq (lower a) (lower b)

unfoldable pub set_protocol : Text → Rule → Rule
set_protocol value r =
    if same_word value (lit "ALL")
    then record r { proto = lit "all" }
    else if same_word value (lit "ICMP")
    then record r { proto = lit "icmp" }
    else if same_word value (lit "UDP")
    then record r { proto = lit "udp" }
    else if same_word value (lit "TCP")
    then record r { proto = lit "tcp" }
    else r

unfoldable pub process_rule_protocol : Text → Text → DataFactory → Option DataFactory
unfolding set_protocol
process_rule_protocol key value =
    with_rule (λ r. if text_eq key (lit "protocol") then set_protocol value r else r)

unfoldable pub process_rule_exclude : Text → Text → DataFactory → Option DataFactory
process_rule_exclude key value = with_rule (λ r. record r { exclude = true })

unfoldable pub process_rule_failover : Text → Text → DataFactory → Option DataFactory
process_rule_failover key value = with_rule (λ r. record r { failover = true })

unfoldable pub process_rule_enablesourcebasedrouting :
    Text → Text → DataFactory → Option DataFactory
process_rule_enablesourcebasedrouting key value =
    with_rule (λ r. record r { enable_source_based_routing = true })

unfoldable pub process_rule_source : Text → Text → DataFactory → Option DataFactory
process_rule_source key value = with_rule (λ r.
    if text_eq key (lit "address")
    then record r { s_addr = value }
    else if text_eq key (lit "port-ipt")
    then record r { s_port_ipt = value }
    else if text_eq key (lit "port")
    then record r { s_port = value }
    else r)

unfoldable pub process_rule_destination : Text → Text → DataFactory → Option DataFactory
process_rule_destination key value = with_rule (λ r.
    if text_eq key (lit "address")
    then record r { d_addr = value }
    else if text_eq key (lit "port-ipt")
    then record r { d_port_ipt = value }
    else if text_eq key (lit "port")
    then record r { d_port = value }
    else r)

unfoldable pub process_rule_inbound_interface : Text → Text → DataFactory → Option DataFactory
process_rule_inbound_interface key value =
    with_rule
      (λ r. if text_eq key (lit "inbound-interface") then record r { in_iface = value } else r)

-- `process_rule_interface`, which checks no iterator.
unfoldable pub process_rule_interface : Text → Text → DataFactory → Option DataFactory
process_rule_interface key value f =
    if text_eq key (lit "interface")
    then elim f.rule_iter [
      | unset ↦ none
      | past _ ↦ none
      | at _ num ↦
          let add : Rule → Rule =
            λ r. record r { iface_dist_coll = insert value 0 r.iface_dist_coll } in
          some (record (alter_rule num add f) { rule_iface_iter = at num value })
    ]
    else if text_eq key (lit "weight")
    then elim (positive_int value) [
      | none ↦ some f
      | some weight ↦ elim f.rule_iface_iter [
        | unset ↦ none
        | past _ ↦ none
        | at num iface ↦ some (
            alter_rule num
              (λ r. record r { iface_dist_coll = alter iface (λ _. weight) r.iface_dist_coll }) f)
      ]
    ]
    else some f

unfoldable pub set_limit : Text → Text → Rule → Rule
set_limit key value r =
    if text_eq key (lit "burst")
    then record r { limit_burst = value }
    else if text_eq key (lit "rate")
    then record r { limit_rate = value }
    else if text_eq key (lit "period")
    then if text_eq value (lit "second")
      then record r { limit_period = k_second }
      else if text_eq value (lit "minute")
      then record r { limit_period = k_minute }
      else if text_eq value (lit "hour")
      then record r { limit_period = k_hour }
      else r
    else if text_eq key (lit "threshold")
    then record r { limit_mode = text_eq value (lit "true") }
    else r

unfoldable pub process_rule_limit : Text → Text → DataFactory → Option DataFactory
unfolding set_limit
process_rule_limit key value = with_rule (λ r. set_limit key value (record r { limit = true }))
