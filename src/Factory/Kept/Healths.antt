-- ===== src/Factory/Kept/Healths.antt =====
-- Soundness of the data under the handlers of the `health` section.
use mathlib.Core.Option
use vyatta_wanloadbalance.Common.{
  ◌+◌, Option, none, some, Text, ℤ, find, insert, alter, insert-IsSorted, alter-IsSorted, int_key,
  text_key, text_eq, if◌then◌else◌,
}
use vyatta_wanloadbalance.Data.{Health, Test, TestKind, new_health, new_test}
use vyatta_wanloadbalance.Factory.{Iterator, unset, past, at, DataFactory, alter_health}
use vyatta_wanloadbalance.Factory.Healths.{
  process_health, with_health, process_health_interface, write_test, with_test, process_target,
  process_resptime, process_udp, process_user, kind_of, add_kind, find_test, process_type,
  process_test_number,
}
use vyatta_wanloadbalance.Factory.Sound.{
  IsHealth, IsSound, insert_health-IsSound, alter_health-IsSound,
}
use vyatta_wanloadbalance.Factory.Kept.{
  Keeps, Keeps-none, Keeps-some, if-Keeps, number-Keeps, with_health-Keeps,
}

pub write_test-Keeps :
    (g : Test → Option Test) (owner : Text) (num : ℤ) (f : DataFactory)
    → IsSound f.lb_data
    → Keeps (write_test g owner num f)
unfolding write_test
write_test-Keeps g owner num f s =
    elim (find owner f.lb_data.iface_health_coll)
      as (λ (o : Option Health). Keeps (elim o [ none ↦ none | some h ↦ written h ])) [
        | none ↦ Keeps-none
        | some h ↦
            elim (find num h.test_coll)
              as (λ (o : Option Test).
                Keeps (elim o [ none ↦ none | some t ↦ Option.map store (g t) ])) [
                  | none ↦ Keeps-none
                  | some t ↦ elim (g t) as (λ (o : Option Test). Keeps (Option.map store o)) [
                    | none ↦ Keeps-none
                    | some t' ↦ Keeps-some _ (
                        alter_health-IsSound owner _ f
                          (λ h k. (alter-IsSorted num _ h.test_coll k.0, k.1, k.2, k.3)) s)
                  ]
                ]
      ]
  where
    store : Test → DataFactory
    store t' = alter_health owner (λ k. record k { test_coll = alter num (λ _. t') k.test_coll }) f

    written : Health → Option DataFactory
    written h = elim (find num h.test_coll) [ none ↦ none | some t ↦ Option.map store (g t) ]

pub with_test-Keeps :
    (g : Test → Option Test) (f : DataFactory) → IsSound f.lb_data → Keeps (with_test g f)
unfolding with_test
with_test-Keeps g f s =
    elim f.health_iter
      as (λ (i : Iterator Unit Text).
        Keeps (elim i [ unset ↦ none | past _ ↦ none | at _ iface ↦ reached iface f.test_iter ])) [
          | unset ↦ Keeps-none
          | past _ ↦ Keeps-none
          | at _ iface ↦ elim f.test_iter as (λ (i : Iterator Text ℤ). Keeps (reached iface i)) [
            | unset ↦ Keeps-none
            | past owner ↦ if-Keeps (text_eq owner iface) (some f) none (Keeps-some f s) Keeps-none
            | at owner num ↦ write_test-Keeps g owner num f s
          ]
        ]
  where
    reached : Text → Iterator Text ℤ → Option DataFactory
    reached iface i = elim i [
      | unset ↦ none
      | past owner ↦ if text_eq owner iface then some f else none
      | at owner num ↦ write_test g owner num f
    ]

pub process_health-Keeps :
    (key value : Text) (f : DataFactory) → IsSound f.lb_data → Keeps (process_health key value f)
unfolding process_health
process_health-Keeps key value f s = if-Keeps _ _ _ (Keeps-some f s) (
    Keeps-some _
      (elim (find key f.lb_data.iface_health_coll)
        as (λ (o : Option Health).
          IsSound
            (elim o as (λ (q : Option Health). DataFactory) [
              | none ↦ grown
              | some h ↦ f
            ]).lb_data) [ none ↦ insert_health-IsSound value _ f.lb_data s | some h ↦ s ]))
  where
    grown : DataFactory
    grown = record f {
      lb_data = record f.lb_data {
        iface_health_coll =
            insert value (new_health (f.interface_index + 1) value) f.lb_data.iface_health_coll;
      };
      interface_index = f.interface_index + 1;
    }

pub process_health_interface-Keeps :
    (key value : Text) (f : DataFactory)
    → IsSound f.lb_data
    → Keeps (process_health_interface key value f)
unfolding process_health_interface
process_health_interface-Keeps key value f s =
    if-Keeps _ _ _
      (number-Keeps value (λ n. with_health (λ h. record h { success_ct = n }) f) f s
        (λ n small. with_health-Keeps _ f (λ h k. (k.0, small, k.2, k.3)) s))
      (if-Keeps _ _ _
        (number-Keeps value (λ n. with_health (λ h. record h { failure_ct = n }) f) f s
          (λ n small. with_health-Keeps _ f (λ h k. (k.0, k.1, small, k.3)) s))
        (if-Keeps _ _ _ (with_health-Keeps _ f (λ h k. k) s) (Keeps-some f s)))

add_kind-IsHealth :
    (value : Text) (num : ℤ) (h : Health) → IsHealth h → IsHealth (add_kind value num h)
unfolding add_kind
add_kind-IsHealth value num h k =
    elim (kind_of value)
      as (λ (o : Option TestKind). IsHealth (elim o as (λ (q : Option TestKind). Health) [
        | none ↦ h
        | some kind ↦ record h { test_coll = insert num (new_test kind) h.test_coll }
      ])) [
        | none ↦ k
        | some kind ↦ (insert-IsSorted num (new_test kind) h.test_coll k.0, k.1, k.2, k.3)
      ]

pub process_type-Keeps :
    (key value : Text) (f : DataFactory) → IsSound f.lb_data → Keeps (process_type key value f)
unfolding process_type
process_type-Keeps key value f s = go f.health_iter
  where
    num : ℤ
    num = f.current_test_rule_number

    typed : Text → DataFactory
    typed iface = alter_health iface (add_kind value num) f

    go :
        (i : Iterator Unit Text)
        → Keeps (elim i [
          | unset ↦ none
          | past _ ↦ none
          | at _ iface ↦ some (record (typed iface) {
            test_iter = elim (find_test iface num (typed iface)) [
              | none ↦ past iface
              | some t ↦ at iface num
            ];
          })
        ])
    go unset = Keeps-none
    go (past o) = Keeps-none
    go (at o iface) =
        Keeps-some _
          (alter_health-IsSound iface (add_kind value num) f (add_kind-IsHealth value num) s)

pub process_target-Keeps :
    (key value : Text) (f : DataFactory) → IsSound f.lb_data → Keeps (process_target key value f)
unfolding process_target
process_target-Keeps key value f = with_test-Keeps _ f

pub process_resptime-Keeps :
    (key value : Text) (f : DataFactory) → IsSound f.lb_data → Keeps (process_resptime key value f)
unfolding process_resptime
process_resptime-Keeps key value f = with_test-Keeps _ f

pub process_udp-Keeps :
    (key value : Text) (f : DataFactory) → IsSound f.lb_data → Keeps (process_udp key value f)
unfolding process_udp
process_udp-Keeps key value f = with_test-Keeps _ f

pub process_user-Keeps :
    (key value : Text) (f : DataFactory) → IsSound f.lb_data → Keeps (process_user key value f)
unfolding process_user
process_user-Keeps key value f = with_test-Keeps _ f

pub process_test_number-Keeps :
    (key value : Text) (f : DataFactory)
    → IsSound f.lb_data
    → Keeps (process_test_number key value f)
unfolding process_test_number
process_test_number-Keeps key value f = Keeps-some _
