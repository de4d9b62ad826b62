-- ===== src/Factory.antt =====
-- src/lbdatafactory.hh and .cc: `LBDataFactory`, which reads the configuration file into `LBData`.
pub mod Healths
pub mod Rules
pub mod Process
pub mod Load
pub mod Sound
pub mod Kept
pub mod Loaded
use vyatta_wanloadbalance.Common.{
  ℕ, suc, Option, none, some, Text, Map, ℤ, pos, negsuc, alter, strtoul, to_int, int_key, text_key,
}
use vyatta_wanloadbalance.Data.{Data, Health, Rule, new_data}

-- An iterator into a map: one that has not been set yet, `end()`, or the entry of a key. The owner
-- tells which of several maps it points into.
pub data Iterator (O K : Type 0) : Type 0 where
  unset : Iterator O K
  past : O → Iterator O K
  at : O → K → Iterator O K

-- `LBDataFactory`, less `_debug` and the members that no code uses.
pub record DataFactory : Type 0 where
  pub lb_data : Data
  pub interface_index : ℕ
  pub current_test_rule_number : ℤ
  pub rule_iter : Iterator Unit ℤ
  pub health_iter : Iterator Unit Text
  pub rule_iface_iter : Iterator ℤ Text
  pub test_iter : Iterator Text ℤ

-- `LBDataFactory::LBDataFactory`.
unfoldable pub new_factory : DataFactory
new_factory = record {
  lb_data = new_data;
  interface_index = 0;
  current_test_rule_number = pos 0;
  rule_iter = unset;
  health_iter = unset;
  rule_iface_iter = unset;
  test_iter = unset;
}

-- `int num = strtoul(value, NULL, 10)`, if `num > 0`.
unfoldable pub positive_int : Text → Option ℕ
positive_int value = elim (to_int (strtoul value)) [ pos (suc n) ↦ some (suc n) | _ ↦ none ]

-- A write to the rule, or to the interface, of a key.
unfoldable pub alter_rule : ℤ → (Rule → Rule) → DataFactory → DataFactory
alter_rule num g f = record f {
  lb_data = record f.lb_data { lb_rule_coll = alter num g f.lb_data.lb_rule_coll };
}

unfoldable pub alter_health : Text → (Health → Health) → DataFactory → DataFactory
alter_health iface g f = record f {
  lb_data = record f.lb_data { iface_health_coll = alter iface g f.lb_data.iface_health_coll };
}
