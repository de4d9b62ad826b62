-- ===== src/LoadBalance/Config.antt =====
-- The steps of the loop leave the configuration as it was loaded.
use vyatta_wanloadbalance.Common.{
  ℕ, ◌≡◌, refl, ap, ◌∙◌, Bool, true, List, [], ◌∷◌, Option, none, some, Text, Map, ℤ, Holds,
  AllValues, keys, keys-map_values, text_key,
}
use vyatta_wanloadbalance.Data.{Data, Health}
use vyatta_wanloadbalance.State.{reset_state_changed}
use vyatta_wanloadbalance.State.Lease.{Files, update_nexthop, update_all, update_dhcp_nexthop}
use vyatta_wanloadbalance.PathTest.{Prober, path_test}
use vyatta_wanloadbalance.PathTest.Kept.{IsKept, Stored, path_test_kept}
use vyatta_wanloadbalance.Decision.Teardown.Config.{SameConfig}
use vyatta_wanloadbalance.LoadBalance.{LoadBalance, health_test, start_cycle}

all_keys :
    (files : Files) (m : Map Text Health)
    → Holds (λ (m' : Map Text Health). keys m' ≡ keys m) (update_all files m)
unfolding update_all
all_keys files [] = refl
all_keys files ((iface, h) ∷ rest) =
    both (update_nexthop files iface h) (update_all files rest) (all_keys files rest)
  where
    both :
        (x : Option Health) (y : Option (Map Text Health))
        → Holds (λ (m' : Map Text Health). keys m' ≡ keys rest) y
        → Holds
            (λ (m' : Map Text Health). keys m' ≡ iface ∷ keys rest)
            (elim x [
              | none ↦ none
              | some h' ↦ elim y [ none ↦ none | some rest' ↦ some ((iface, h') ∷ rest') ]
            ])
    both none y e = tt
    both (some h') none e = tt
    both (some h') (some rest') e = ap (λ is. iface ∷ is) e

pub start_cycle-SameConfig :
    (files : Files) (lb : LoadBalance)
    → Holds (λ (r : Bool × LoadBalance). SameConfig lb.lbdata r.1.lbdata) (start_cycle files lb)
unfolding start_cycle update_dhcp_nexthop reset_state_changed
start_cycle-SameConfig files lb =
    go (update_all files (reset_state_changed lb.lbdata).iface_health_coll) (all_keys files _)
  where
    go :
        (o : Option (Map Text Health))
        → Holds
            (λ (m : Map Text Health).
              keys m ≡ keys (reset_state_changed lb.lbdata).iface_health_coll)
            o
        → Holds
            (λ (r : Bool × LoadBalance). SameConfig lb.lbdata r.1.lbdata)
            (elim (elim o as (λ (q : Option (Map Text Health)). Option Data) [
              | none ↦ none
              | some coll ↦
                  some (record (reset_state_changed lb.lbdata) { iface_health_coll = coll })
            ])
              as (λ (q : Option Data). Option (Bool × LoadBalance)) [
                | none ↦ none
                | some d ↦ some (true, record lb { lbdata = d })
              ])
    go none e = tt
    go (some coll) e = record {
      rules = refl;
      local = refl;
      sticky = refl;
      ifaces = e ∙ keys-map_values _ lb.lbdata.iface_health_coll;
    }

module _ (beyond : ℕ → ℤ) (prober : Prober) where
  open prober use {World}

  abbrev Any : Health → Type 0
  Any h = Unit {0}

  Any-IsKept : IsKept beyond Any
  Any-IsKept = record {
    cycle = λ h k. tt;
    test = λ h num t t' e k. tt;
    next = λ h i k. tt;
    result = λ now rtt h k. tt;
  }

  any : (m : Map Text Health) → AllValues Any m
  any [] = tt
  any ((i, h) ∷ m) = (tt, any m)

  same :
      (d d' : Data)
      → d' ≡ record d { iface_health_coll = d'.iface_health_coll }
      → keys d'.iface_health_coll ≡ keys d.iface_health_coll
      → SameConfig d d'
  same d d' e k = record {
    rules = ap (λ (z : Data). z.lb_rule_coll) e;
    local = ap (λ (z : Data). z.enable_local_traffic) e;
    sticky = ap (λ (z : Data). z.sticky_inbound_connections) e;
    ifaces = k;
  }

  pub health_test-SameConfig :
      (order : List Text) (lb : LoadBalance) (w : World)
      → Holds
          (λ (r : LoadBalance × World). SameConfig lb.lbdata r.0.lbdata)
          (health_test beyond prober order lb w)
  unfolding health_test
  health_test-SameConfig order lb w = go (path_test beyond prober _ order lb.lbdata w) (
      path_test_kept beyond prober Any Any-IsKept _ order lb.lbdata w
        (any lb.lbdata.iface_health_coll))
    where
      go :
          (o : Option (Data × World))
          → Holds (λ (r : Data × World). Stored beyond prober Any Any-IsKept lb.lbdata r.0) o
          → Holds
              (λ (r : LoadBalance × World). SameConfig lb.lbdata r.0.lbdata)
              (elim o [ none ↦ none | some (d, w') ↦ some (record lb { lbdata = d }, w') ])
      go none p = tt
      go (some (d, w')) p = same lb.lbdata d p.2 p.3
