-- ===== src/Factory/Kept/Process.antt =====
-- Soundness of the data under `process`.
use vyatta_wanloadbalance.Common.{
  ◌≡◌, refl, Bool, true, List, [], Text, ℤ, pos, arith, eq_ℤ, ◌&&◌, lit, lower, get_or, int_key,
  text_key, is_empty, text_eq, if◌then◌else◌,
}
use vyatta_wanloadbalance.Data.{Data}
use vyatta_wanloadbalance.Factory.{DataFactory}
use vyatta_wanloadbalance.Factory.Process.{
  with_data, process_disablesourcenat, process_enablelocaltraffic, process_stickyinboundconnections,
  process_flushconntrack, process_hook, process_in_health, process_in_rule, process,
}
use vyatta_wanloadbalance.Factory.Sound.{IsSound}
use vyatta_wanloadbalance.Factory.Kept.{Keeps, Keeps-some, if-Keeps}
use vyatta_wanloadbalance.Factory.Kept.Healths.{
  process_health-Keeps, process_health_interface-Keeps, process_type-Keeps, process_target-Keeps,
  process_resptime-Keeps, process_udp-Keeps, process_user-Keeps, process_test_number-Keeps,
}
use vyatta_wanloadbalance.Factory.Kept.Rules.{
  process_rule-Keeps, process_rule_interface-Keeps, process_rule_protocol-Keeps,
  process_rule_limit-Keeps, process_rule_source-Keeps, process_rule_destination-Keeps,
  process_rule_inbound_interface-Keeps, process_rule_exclude-Keeps, process_rule_failover-Keeps,
  process_rule_enablesourcebasedrouting-Keeps,
}

process_in_rule-Keeps :
    (depth : ℤ) (place l_key l_value : Text) (f : DataFactory)
    → IsSound f.lb_data
    → Keeps (process_in_rule depth place l_key l_value f)
unfolding process_in_rule
process_in_rule-Keeps depth place l_key l_value f s =
    if-Keeps _ _ _ (process_rule_source-Keeps l_key l_value f s) (
      if-Keeps _ _ _ (process_rule_destination-Keeps l_key l_value f s) (
        if-Keeps _ _ _ (process_rule_inbound_interface-Keeps l_key l_value f s) (
          if-Keeps _ _ _ (process_rule_interface-Keeps l_key l_value f s) (
            if-Keeps _ _ _ (process_rule_protocol-Keeps l_key l_value f s) (
              if-Keeps _ _ _ (process_rule_exclude-Keeps l_key l_value f s) (
                if-Keeps _ _ _ (process_rule_failover-Keeps l_key l_value f s) (
                  if-Keeps _ _ _ (process_rule_enablesourcebasedrouting-Keeps l_key l_value f s) (
                    if-Keeps _ _ _ (process_rule_limit-Keeps l_key l_value f s)
                      (process_rule-Keeps l_key l_value f s)))))))))

process_in_health-Keeps :
    (depth : ℤ) (key l_key l_value : Text) (f : DataFactory)
    → IsSound f.lb_data
    → Keeps (process_in_health depth key l_key l_value f)
unfolding process_in_health
process_in_health-Keeps depth key l_key l_value f s =
    if-Keeps _ _ _ (process_health-Keeps l_key l_value f s) (
      if-Keeps _ _ _ (process_health_interface-Keeps l_key l_value f s) (
        if-Keeps _ _ _ (process_test_number-Keeps l_key l_value f s) (
          if-Keeps _ _ _ (process_type-Keeps l_key l_value f s) (
            if-Keeps _ _ _ (process_target-Keeps l_key l_value f s) (
              if-Keeps _ _ _ (process_resptime-Keeps l_key l_value f s) (
                if-Keeps (eq_ℤ depth (pos 4) && text_eq key (lit "ttl")) _ _
                  (process_udp-Keeps l_key l_value f s)
                  (if-Keeps (eq_ℤ depth (pos 4) && text_eq key (lit "port")) _ _
                    (process_udp-Keeps l_key l_value f s)
                    (if-Keeps (eq_ℤ depth (pos 4) && text_eq key (lit "test-script")) _ _
                      (process_user-Keeps l_key l_value f s) (Keeps-some f s)))))))))

with_data-Keeps :
    (g : Data → Data) (f : DataFactory)
    → ((d : Data) → (g d).lb_rule_coll ≡ d.lb_rule_coll)
    → ((d : Data) → (g d).iface_health_coll ≡ d.iface_health_coll)
    → IsSound f.lb_data
    → Keeps (with_data g f)
unfolding with_data
with_data-Keeps g f same_rules same_ifaces s = Keeps-some _ (record {
  rules_in_order = rw (same_rules f.lb_data) s.rules_in_order;
  rules = rw (same_rules f.lb_data) s.rules;
  ifaces_in_order = rw (same_ifaces f.lb_data) s.ifaces_in_order;
  ifaces = rw (same_ifaces f.lb_data) s.ifaces;
})

process_disablesourcenat-Keeps :
    (key value : Text) (f : DataFactory)
    → IsSound f.lb_data
    → Keeps (process_disablesourcenat key value f)
unfolding process_disablesourcenat
process_disablesourcenat-Keeps key value f =
    with_data-Keeps (λ d. record d { disable_source_nat = true }) f (λ d. refl) (λ d. refl)

process_enablelocaltraffic-Keeps :
    (key value : Text) (f : DataFactory)
    → IsSound f.lb_data
    → Keeps (process_enablelocaltraffic key value f)
unfolding process_enablelocaltraffic
process_enablelocaltraffic-Keeps key value f =
    with_data-Keeps (λ d. record d { enable_local_traffic = true }) f (λ d. refl) (λ d. refl)

process_stickyinboundconnections-Keeps :
    (key value : Text) (f : DataFactory)
    → IsSound f.lb_data
    → Keeps (process_stickyinboundconnections key value f)
unfolding process_stickyinboundconnections
process_stickyinboundconnections-Keeps key value f =
    with_data-Keeps (λ d. record d { sticky_inbound_connections = true }) f (λ d. refl) (λ d. refl)

process_flushconntrack-Keeps :
    (key value : Text) (f : DataFactory)
    → IsSound f.lb_data
    → Keeps (process_flushconntrack key value f)
unfolding process_flushconntrack
process_flushconntrack-Keeps key value f =
    with_data-Keeps (λ d. record d { flush_conntrack = true }) f (λ d. refl) (λ d. refl)

process_hook-Keeps :
    (key value : Text) (f : DataFactory) → IsSound f.lb_data → Keeps (process_hook key value f)
unfolding process_hook
process_hook-Keeps key value f =
    with_data-Keeps (λ d. if is_empty value then d else record d { hook = value }) f
      (λ d. ground arith) (λ d. ground arith)

-- Where `process` has a defined behaviour it keeps the data sound, whatever the line and its place.
pub process-Keeps :
    (path : List Text) (depth : ℤ) (key value : Text) (f : DataFactory)
    → IsSound f.lb_data
    → Keeps (process path depth key value f)
unfolding process
process-Keeps path depth key value f s =
    if-Keeps (top (lit "disable-source-nat")) _ _ (process_disablesourcenat-Keeps l_key l_value f s)
      (if-Keeps (top (lit "enable-local-traffic")) _ _
        (process_enablelocaltraffic-Keeps l_key l_value f s)
        (if-Keeps (top (lit "sticky-connections")) _ _
          (if-Keeps (text_eq l_value (lit "inbound")) _ _
            (process_stickyinboundconnections-Keeps l_key l_value f s) (Keeps-some f s))
          (if-Keeps (top (lit "flush-conntrack")) _ _
            (process_flushconntrack-Keeps l_key l_value f s)
            (if-Keeps (top (lit "hook")) _ _ (process_hook-Keeps l_key l_value f s) (
              if-Keeps (top (lit "health")) _ _
                (process_in_health-Keeps depth key l_key l_value f s)
                (if-Keeps (top (lit "rule")) _ _
                  (process_in_rule-Keeps depth (get_or path 1 []) l_key l_value f s)
                  (Keeps-some f s)))))))
  where
    top : Text → Bool
    top word = text_eq (get_or path 0 []) word

    l_key : Text
    l_key = lower key

    l_value : Text
    l_value = lower value
