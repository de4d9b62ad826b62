-- ===== src/Factory/Healths.antt =====
-- src/lbdatafactory.cc: the handlers of the `health` section. `none` is undefined behaviour: an
-- access through an iterator that is at no entry, or to a member that the test does not have.
use mathlib.Core.Option
use vyatta_wanloadbalance.Common.{
  ℕ, ◌+◌, [], Option, none, some, Text, ℤ, find, insert, alter, lit, is_empty, text_eq, strtoul,
  to_int, strtol_u16, int_key, text_key, if◌then◌else◌,
}
use vyatta_wanloadbalance.Data.{Health, Test, TestKind, ping, udp, user, new_test, new_health}
use vyatta_wanloadbalance.Factory.{unset, past, at, DataFactory, positive_int, alter_health}

-- `process_health`. The search is for the key, which is the word "interface".
unfoldable pub process_health : Text → Text → DataFactory → Option DataFactory
process_health key value f =
    if is_empty value
    then some f
    else let index = f.interface_index + 1 in
      let coll = f.lb_data.iface_health_coll in
      let grown : DataFactory = elim (find key coll) [
        | none ↦ record f {
          lb_data = record f.lb_data {
            iface_health_coll = insert value (new_health index value) coll;
          };
          interface_index = index;
        }
        | some h ↦ f
      ] in
      some (record grown {
        health_iter = elim (find value grown.lb_data.iface_health_coll) [
          | none ↦ past tt
          | some h ↦ at tt value
        ];
      })

-- `_health_iter->second`, which a handler writes to.
unfoldable pub with_health : (Health → Health) → DataFactory → Option DataFactory
with_health g f = elim f.health_iter [
  | unset ↦ none
  | past _ ↦ none
  | at _ iface ↦ some (alter_health iface g f)
]

-- `process_health_interface`. A number that is not positive is logged only.
unfoldable pub process_health_interface : Text → Text → DataFactory → Option DataFactory
process_health_interface key value f =
    if text_eq key (lit "success-ct")
    then elim (positive_int value) [
      | none ↦ some f
      | some num ↦ with_health (λ h. record h { success_ct = num }) f
    ]
    else if text_eq key (lit "failure-ct")
    then elim (positive_int value) [
      | none ↦ some f
      | some num ↦ with_health (λ h. record h { failure_ct = num }) f
    ]
    else if text_eq key (lit "nexthop")
    then with_health (λ h. record h { nexthop = value }) f
    else some f

-- `_test_iter->second`, where the iterator is at a test.
unfoldable pub write_test : (Test → Option Test) → Text → ℤ → DataFactory → Option DataFactory
write_test g owner num f = elim (find owner f.lb_data.iface_health_coll) [
  | none ↦ none
  | some h ↦ elim (find num h.test_coll) [
    | none ↦ none
    | some t ↦
        Option.map
          (λ t'.
            alter_health owner (λ k. record k { test_coll = alter num (λ _. t') k.test_coll }) f)
          (g t)
  ]
]

-- A handler that writes to the test at `_test_iter`, unless that is the end of the tests of the
-- present interface.
unfoldable pub with_test : (Test → Option Test) → DataFactory → Option DataFactory
with_test g f = elim f.health_iter [
  | unset ↦ none
  | past _ ↦ none
  | at _ iface ↦ elim f.test_iter [
    | unset ↦ none
    | past owner ↦ if text_eq owner iface then some f else none
    | at owner num ↦ write_test g owner num f
  ]
]

-- `process_health_interface_rule_type_target` and `..._resptime`.
unfoldable pub process_target : Text → Text → DataFactory → Option DataFactory
process_target key value = with_test (λ t. some (record t { target = value }))

unfoldable pub process_resptime : Text → Text → DataFactory → Option DataFactory
process_resptime key value = with_test (λ t. some (record t { resp_time = to_int (strtoul value) }))

unfoldable pub set_ttl : ℕ → TestKind → Option TestKind
set_ttl val ping = none
set_ttl val (udp ttl port) = some (udp val port)
set_ttl val (user script) = none

unfoldable pub set_port : ℕ → TestKind → Option TestKind
set_port val ping = none
set_port val (udp ttl port) = some (udp ttl val)
set_port val (user script) = none

unfoldable pub set_script : Text → TestKind → Option TestKind
set_script value ping = none
set_script value (udp ttl port) = none
set_script value (user script) = some (user value)

with_kind : (TestKind → Option TestKind) → Test → Option Test
with_kind g t = Option.map (λ k. record t { kind = k }) (g t.kind)

-- `process_health_interface_rule_type_udp`: the test is cast to `LBTestTTL`, whatever it is.
unfoldable pub process_udp : Text → Text → DataFactory → Option DataFactory
unfolding with_kind
process_udp key value = with_test (λ t.
    if text_eq key (lit "ttl")
    then with_kind (set_ttl (strtol_u16 value)) t
    else if text_eq key (lit "port")
    then with_kind (set_port (strtol_u16 value)) t
    else some t)

-- `process_health_interface_rule_type_user`, with a cast to `LBTestUser`.
unfoldable pub process_user : Text → Text → DataFactory → Option DataFactory
unfolding with_kind
process_user key value =
    with_test
      (λ t. if text_eq key (lit "test-script") then with_kind (set_script value) t else some t)

unfoldable pub kind_of : Text → Option TestKind
kind_of value =
    if text_eq value (lit "ping")
    then some ping
    else if text_eq value (lit "udp")
    then some (udp 0 0)
    else if text_eq value (lit "user-defined")
    then some (user [])
    else none

-- The test of a type for the present number. A test that is there already stays.
unfoldable pub add_kind : Text → ℤ → Health → Health
unfolding kind_of
add_kind value num h = elim (kind_of value) [
  | none ↦ h
  | some kind ↦ record h { test_coll = insert num (new_test kind) h.test_coll }
]

unfoldable pub find_test : Text → ℤ → DataFactory → Option Test
find_test iface num f = elim (find iface f.lb_data.iface_health_coll) [
  | none ↦ none
  | some h ↦ find num h.test_coll
]

-- `process_health_interface_rule_type`.
unfoldable pub process_type : Text → Text → DataFactory → Option DataFactory
unfolding find_test
process_type key value f = elim f.health_iter [
  | unset ↦ none
  | past _ ↦ none
  | at _ iface ↦
      let num = f.current_test_rule_number in
      let grown = alter_health iface (add_kind value num) f in
      some (record grown {
        test_iter = elim (find_test iface num grown) [ none ↦ past iface | some t ↦ at iface num ];
      })
]

-- `process_health_interface_rule`.
unfoldable pub process_test_number : Text → Text → DataFactory → Option DataFactory
process_test_number key value f =
    some (record f { current_test_rule_number = to_int (strtoul value) })
