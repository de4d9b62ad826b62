-- ===== src/Factory/Kept/Rules.antt =====
-- Soundness of the data under the handlers of the `rule` sections.
use vyatta_wanloadbalance.Common.{
  ℕ, ◌≡◌, refl, none, some, Text, ℤ, pos, arith, AllValues-insert, AllValues-alter, insert, alter,
  insert-IsSorted, alter-IsSorted, int_key, text_key,
}
use vyatta_wanloadbalance.Data.{Rule}
use vyatta_wanloadbalance.Factory.{Iterator, unset, past, at, DataFactory, alter_rule}
use vyatta_wanloadbalance.Factory.Rules.{
  process_rule, with_rule, set_protocol, process_rule_protocol, process_rule_exclude,
  process_rule_failover, process_rule_enablesourcebasedrouting, process_rule_source,
  process_rule_destination, process_rule_inbound_interface, process_rule_interface, set_limit,
  process_rule_limit,
}
use vyatta_wanloadbalance.Factory.Sound.{IsInt, IsSound, insert_rule-IsSound, alter_rule-IsSound}
use vyatta_wanloadbalance.Factory.Kept.{
  Keeps, Keeps-none, Keeps-some, if-Keeps, number-Keeps, with_rule-Keeps,
}

pub process_rule-Keeps :
    (key value : Text) (f : DataFactory) → IsSound f.lb_data → Keeps (process_rule key value f)
unfolding process_rule
process_rule-Keeps key value f s =
    if-Keeps _ _ _ (Keeps-some f s)
      (number-Keeps value _ f s (λ n small. Keeps-some _ (insert_rule-IsSound (pos n) f.lb_data s)))

pub process_rule_interface-Keeps :
    (key value : Text) (f : DataFactory)
    → IsSound f.lb_data
    → Keeps (process_rule_interface key value f)
unfolding process_rule_interface
process_rule_interface-Keeps key value f s = if-Keeps _ _ _ (named f.rule_iter) (
    if-Keeps _ _ _ (number-Keeps value _ f s (λ n small. weighted n small f.rule_iface_iter))
      (Keeps-some f s))
  where
    add : Rule → Rule
    add r = record r { iface_dist_coll = insert value 0 r.iface_dist_coll }

    named :
        (i : Iterator Unit ℤ)
        → Keeps (elim i [
          | unset ↦ none
          | past _ ↦ none
          | at _ num ↦ some (record (alter_rule num add f) { rule_iface_iter = at num value })
        ])
    named unset = Keeps-none
    named (past o) = Keeps-none
    named (at o num) = Keeps-some _ (
        alter_rule-IsSound num add f
          (λ r k. (
            insert-IsSorted value 0 r.iface_dist_coll k.0,
            AllValues-insert IsInt value 0 r.iface_dist_coll (ground arith) k.1,
          ))
          s)

    weigh : ℕ → Text → Rule → Rule
    weigh n iface r = record r { iface_dist_coll = alter iface (λ _. n) r.iface_dist_coll }

    weighted :
        (n : ℕ)
        → IsInt n
        → (i : Iterator ℤ Text)
        → Keeps (elim i [
          | unset ↦ none
          | past _ ↦ none
          | at num iface ↦ some (alter_rule num (weigh n iface) f)
        ])
    weighted n small unset = Keeps-none
    weighted n small (past o) = Keeps-none
    weighted n small (at num iface) = Keeps-some _ (
        alter_rule-IsSound num (weigh n iface) f
          (λ r k. (
            alter-IsSorted iface (λ _. n) r.iface_dist_coll k.0,
            AllValues-alter IsInt iface (λ _. n) r.iface_dist_coll (λ v p. small) k.1,
          ))
          s)

-- A write to a rule that leaves its interfaces alone.
pub same_ifaces-Keeps :
    (g : Rule → Rule) (f : DataFactory)
    → ((r : Rule) → (g r).iface_dist_coll ≡ r.iface_dist_coll)
    → IsSound f.lb_data
    → Keeps (with_rule g f)
same_ifaces-Keeps g f same = with_rule-Keeps g f (λ r k. rw (same r) k)

pub process_rule_protocol-Keeps :
    (key value : Text) (f : DataFactory)
    → IsSound f.lb_data
    → Keeps (process_rule_protocol key value f)
unfolding process_rule_protocol set_protocol
process_rule_protocol-Keeps key value f = same_ifaces-Keeps _ f (λ r. ground arith)

pub process_rule_limit-Keeps :
    (key value : Text) (f : DataFactory)
    → IsSound f.lb_data
    → Keeps (process_rule_limit key value f)
unfolding process_rule_limit set_limit
process_rule_limit-Keeps key value f = same_ifaces-Keeps _ f (λ r. ground arith)

pub process_rule_source-Keeps :
    (key value : Text) (f : DataFactory)
    → IsSound f.lb_data
    → Keeps (process_rule_source key value f)
unfolding process_rule_source
process_rule_source-Keeps key value f = same_ifaces-Keeps _ f (λ r. ground arith)

pub process_rule_destination-Keeps :
    (key value : Text) (f : DataFactory)
    → IsSound f.lb_data
    → Keeps (process_rule_destination key value f)
unfolding process_rule_destination
process_rule_destination-Keeps key value f = same_ifaces-Keeps _ f (λ r. ground arith)

pub process_rule_inbound_interface-Keeps :
    (key value : Text) (f : DataFactory)
    → IsSound f.lb_data
    → Keeps (process_rule_inbound_interface key value f)
unfolding process_rule_inbound_interface
process_rule_inbound_interface-Keeps key value f = same_ifaces-Keeps _ f (λ r. ground arith)

pub process_rule_exclude-Keeps :
    (key value : Text) (f : DataFactory)
    → IsSound f.lb_data
    → Keeps (process_rule_exclude key value f)
unfolding process_rule_exclude
process_rule_exclude-Keeps key value f = same_ifaces-Keeps _ f (λ r. refl)

pub process_rule_failover-Keeps :
    (key value : Text) (f : DataFactory)
    → IsSound f.lb_data
    → Keeps (process_rule_failover key value f)
unfolding process_rule_failover
process_rule_failover-Keeps key value f = same_ifaces-Keeps _ f (λ r. refl)

pub process_rule_enablesourcebasedrouting-Keeps :
    (key value : Text) (f : DataFactory)
    → IsSound f.lb_data
    → Keeps (process_rule_enablesourcebasedrouting key value f)
unfolding process_rule_enablesourcebasedrouting
process_rule_enablesourcebasedrouting-Keeps key value f = same_ifaces-Keeps _ f (λ r. refl)
