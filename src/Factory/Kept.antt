-- ===== src/Factory/Kept.antt =====
-- What it takes for a handler to keep the data sound.
pub mod Healths
pub mod Rules
pub mod Process
use mathlib.Core.Option
use vyatta_wanloadbalance.Common.{
  ℕ, suc, ◌+◌, ◌≡◌, refl, ◌⊎◌, inl, inr, Bool, true, false, List, [], ◌∷◌, Option, none, some, Text,
  Map, ℤ, pos, arith, eq_ℤ, ◌&&◌, lit, lower, get_or, IsSorted, AllValues, AllValues-insert,
  AllValues-alter, AllValues-find, Holds, find, insert, alter, insert-IsSorted, alter-IsSorted,
  int_key, text_key, is_empty, text_eq, if◌then◌else◌,
}
use vyatta_wanloadbalance.Data.{Data, Health, Rule, Test, TestKind, new_health, new_test}
use vyatta_wanloadbalance.Factory.{
  Iterator, unset, past, at, DataFactory, positive_int, alter_rule, alter_health,
}
use vyatta_wanloadbalance.Factory.Healths.{
  process_health, with_health, process_health_interface, write_test, with_test, process_target,
  process_resptime, process_udp, process_user, kind_of, add_kind, find_test, process_type,
  process_test_number,
}
use vyatta_wanloadbalance.Factory.Rules.{
  process_rule, with_rule, set_protocol, process_rule_protocol, process_rule_exclude,
  process_rule_failover, process_rule_enablesourcebasedrouting, process_rule_source,
  process_rule_destination, process_rule_inbound_interface, process_rule_interface, set_limit,
  process_rule_limit,
}
use vyatta_wanloadbalance.Factory.Process.{
  with_data, process_disablesourcenat, process_enablelocaltraffic, process_stickyinboundconnections,
  process_flushconntrack, process_hook, process_in_health, process_in_rule, process,
}
use vyatta_wanloadbalance.Factory.Sound.{
  IsInt, IsRule, IsHealth, IsSound, positive_int-IsInt, insert_rule-IsSound, insert_health-IsSound,
  alter_rule-IsSound, alter_health-IsSound,
}

-- A handler's result, where it has one, is sound.
pub record Keeps (o : Option DataFactory) : Type 0 where
  pub sound : Holds (λ f. IsSound f.lb_data) o

pub Keeps-none : Keeps none
Keeps-none = record { sound = tt }

pub Keeps-some : (f : DataFactory) → IsSound f.lb_data → Keeps (some f)
Keeps-some f s = record { sound = s }

-- A guard in front of handlers.
pub if-Keeps :
    (b : Bool) (x y : Option DataFactory) → Keeps x → Keeps y → Keeps (if b then x else y)
if-Keeps true x y p q = p
if-Keeps false x y p q = q

pub number-Keeps :
    (value : Text) (g : ℕ → Option DataFactory) (f : DataFactory)
    → IsSound f.lb_data
    → ((n : ℕ) → IsInt n → Keeps (g n))
    → Keeps (elim (positive_int value) [ none ↦ some f | some n ↦ g n ])
number-Keeps value g f s step =
    elim (positive_int value)
        as (λ (o : Option ℕ). Holds IsInt o → Keeps (elim o [ none ↦ some f | some n ↦ g n ])) [
          | none ↦ λ small. Keeps-some f s
          | some n ↦ λ small. step n small
        ]
      (positive_int-IsInt value)

pub with_rule-Keeps :
    (g : Rule → Rule) (f : DataFactory)
    → ((r : Rule) → IsRule r → IsRule (g r))
    → IsSound f.lb_data
    → Keeps (with_rule g f)
unfolding with_rule
with_rule-Keeps g f step s =
    elim f.rule_iter
      as (λ (i : Iterator Unit ℤ).
        Keeps (elim i [ unset ↦ none | past _ ↦ some f | at _ num ↦ some (alter_rule num g f) ])) [
          | unset ↦ Keeps-none
          | past _ ↦ Keeps-some f s
          | at _ num ↦ Keeps-some _ (alter_rule-IsSound num g f step s)
        ]

pub with_health-Keeps :
    (g : Health → Health) (f : DataFactory)
    → ((h : Health) → IsHealth h → IsHealth (g h))
    → IsSound f.lb_data
    → Keeps (with_health g f)
unfolding with_health
with_health-Keeps g f step s =
    elim f.health_iter
      as (λ (i : Iterator Unit Text).
        Keeps
          (elim i [ unset ↦ none | past _ ↦ none | at _ iface ↦ some (alter_health iface g f) ])) [
            | unset ↦ Keeps-none
            | past _ ↦ Keeps-none
            | at _ iface ↦ Keeps-some _ (alter_health-IsSound iface g f step s)
          ]
