-- ===== src/Factory/Sound.antt =====
-- What holds of the data while the configuration is read.
use vyatta_wanloadbalance.Common.{
  ℕ, zero, suc, ◌^◌, ◌%◌, ◌<◌, ◌≡◌, refl, Bool, true, false, Option, none, some, Text, ℤ, pos,
  negsuc, arith, IsSorted, AllValues, AllValues-insert, AllValues-alter, Holds, insert,
  insert-IsSorted, alter-IsSorted, int_key, text_key, strtoul, to_int, ltb, if◌then◌else◌,
}
use vyatta_wanloadbalance.Data.{Data, Health, Rule, new_rule, new_health, new_data, new_history}
use vyatta_wanloadbalance.Ring.Push.{IsRing}
use vyatta_wanloadbalance.Factory.{DataFactory, new_factory, positive_int, alter_rule, alter_health}

-- A number that an `int` holds.
abbrev pub IsInt : ℕ → Type 0
IsInt n = n < 2 ^ 31

-- The interfaces of a rule are in order, and their weights are `int`s.
abbrev pub IsRule : Rule → Type 0
IsRule r = IsSorted r.iface_dist_coll × AllValues IsInt r.iface_dist_coll

-- The tests of an interface are in order, the thresholds are `int`s, and the ring has its places.
abbrev pub IsHealth : Health → Type 0
IsHealth h = IsSorted h.test_coll × IsInt h.success_ct × IsInt h.failure_ct × IsRing h.hresults

-- Rules and interfaces are in order, and each of them is well formed.
pub record IsSound (d : Data) : Type 0 where
  pub rules_in_order : IsSorted d.lb_rule_coll
  pub rules : AllValues IsRule d.lb_rule_coll
  pub ifaces_in_order : IsSorted d.iface_health_coll
  pub ifaces : AllValues IsHealth d.iface_health_coll

pub new_rule-IsRule : IsRule new_rule
unfolding new_rule
new_rule-IsRule = (tt, tt)

pub new_health-IsHealth : (index : ℕ) (iface : Text) → IsHealth (new_health index iface)
unfolding new_health new_history
new_health-IsHealth index iface = (tt, ground arith, ground arith, record { full = refl })

pub new_factory-IsSound : IsSound new_factory.lb_data
unfolding new_factory new_data
new_factory-IsSound = record { rules_in_order = tt; rules = tt; ifaces_in_order = tt; ifaces = tt }

-- What `strtoul` and the guard let through is a positive `int`.
pub positive_int-IsInt : (value : Text) → Holds IsInt (positive_int value)
unfolding positive_int to_int
positive_int-IsInt value =
    go (ltb (strtoul value % 2 ^ 32) (2 ^ 31)) (strtoul value % 2 ^ 32) _ refl
  where
    go :
        (b : Bool) (r k : ℕ)
        → ltb r (2 ^ 31) ≡ b
        → Holds IsInt (elim (if b then pos r else negsuc k) as (λ (z : ℤ). Option ℕ) [
          | pos n ↦ elim n as (λ (m : ℕ). Option ℕ) [ zero ↦ none | suc m ↦ some (suc m) ]
          | negsuc n ↦ none
        ])
    go true zero k e = tt
    go true (suc n) k e = ground arith
    go false r k e = tt

pub insert_rule-IsSound :
    (num : ℤ) (d : Data)
    → IsSound d
    → IsSound (record d { lb_rule_coll = insert num new_rule d.lb_rule_coll })
insert_rule-IsSound num d s = record {
  rules_in_order = insert-IsSorted num new_rule d.lb_rule_coll s.rules_in_order;
  rules = AllValues-insert IsRule num new_rule d.lb_rule_coll new_rule-IsRule s.rules;
  ifaces_in_order = s.ifaces_in_order;
  ifaces = s.ifaces;
}

pub insert_health-IsSound :
    (iface : Text) (index : ℕ) (d : Data)
    → IsSound d
    → IsSound
        (record d { iface_health_coll = insert iface (new_health index iface) d.iface_health_coll })
insert_health-IsSound iface index d s = record {
  rules_in_order = s.rules_in_order;
  rules = s.rules;
  ifaces_in_order = insert-IsSorted iface _ d.iface_health_coll s.ifaces_in_order;
  ifaces =
      AllValues-insert IsHealth iface _ d.iface_health_coll (new_health-IsHealth index iface)
        s.ifaces;
}

pub alter_rule-IsSound :
    (num : ℤ) (g : Rule → Rule) (f : DataFactory)
    → ((r : Rule) → IsRule r → IsRule (g r))
    → IsSound f.lb_data
    → IsSound (alter_rule num g f).lb_data
unfolding alter_rule
alter_rule-IsSound num g f step s = record {
  rules_in_order = alter-IsSorted num g f.lb_data.lb_rule_coll s.rules_in_order;
  rules = AllValues-alter IsRule num g f.lb_data.lb_rule_coll step s.rules;
  ifaces_in_order = s.ifaces_in_order;
  ifaces = s.ifaces;
}

pub alter_health-IsSound :
    (iface : Text) (g : Health → Health) (f : DataFactory)
    → ((h : Health) → IsHealth h → IsHealth (g h))
    → IsSound f.lb_data
    → IsSound (alter_health iface g f).lb_data
unfolding alter_health
alter_health-IsSound iface g f step s = record {
  rules_in_order = s.rules_in_order;
  rules = s.rules;
  ifaces_in_order = alter-IsSorted iface g f.lb_data.iface_health_coll s.ifaces_in_order;
  ifaces = AllValues-alter IsHealth iface g f.lb_data.iface_health_coll step s.ifaces;
}
