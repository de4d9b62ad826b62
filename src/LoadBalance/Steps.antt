-- ===== src/LoadBalance/Steps.antt =====
-- The data of the main loop: from the configuration, and from one cycle to the next.
use vyatta_wanloadbalance.Common.{
  ◌≡◌, refl, Bool, true, false, Option, none, some, Text, Map, [], ◌∷◌, Holds, AllValues,
  AllValues-map_values, IsSorted, Above, map_values, map_values-IsSorted, text_key, text_eq, lit,
  if◌then◌else◌,
}
use vyatta_wanloadbalance.Data.{Data, Health}
use vyatta_wanloadbalance.State.{reset_state_changed}
use vyatta_wanloadbalance.State.Lease.{
  Files, LeaseResult, uncaught, unchanged, router, lease_of, store_hop, update_nexthop, update_all,
  update_dhcp_nexthop,
}
use vyatta_wanloadbalance.Factory.{DataFactory}
use vyatta_wanloadbalance.Factory.Load.{load}
use vyatta_wanloadbalance.Factory.Sound.{IsHealth, IsSound}
use vyatta_wanloadbalance.LoadBalance.{LoadBalance, error, set_conf, start_cycle}

-- `set_conf` answers true whenever `load` ends, also where `load` rejects the configuration, and
-- takes the data as far as it was read.
pub set_conf_accepts :
    (content : Option Text) (lb : LoadBalance) (ok : Bool) (f : DataFactory)
    → load content lb.lbdata_factory ≡ some (ok, f)
    → set_conf content lb ≡ some (true, record { lbdata_factory = f; lbdata = f.lb_data })
unfolding set_conf error
set_conf_accepts content lb ok f e = rw (set_conf, e) refl

-- An interface that is well formed and not marked.
abbrev pub IsFresh : Health → Type 0
IsFresh h = IsHealth h × (h.state_changed ≡ false)

store_hop-IsFresh : (r : LeaseResult) (h : Health) → IsFresh h → Holds IsFresh (store_hop r h)
unfolding store_hop
store_hop-IsFresh uncaught h k = tt
store_hop-IsFresh unchanged h k = k
store_hop-IsFresh (router hop) h k = k

nexthop-IsFresh :
    (files : Files) (iface : Text) (h : Health)
    → IsFresh h
    → Holds IsFresh (update_nexthop files iface h)
unfolding update_nexthop
nexthop-IsFresh files iface h k =
    elim (text_eq h.nexthop (lit "dhcp"))
      as (λ (b : Bool). Holds IsFresh (if b then store_hop (lease_of files iface) h else some h)) [
        | true ↦ store_hop-IsFresh (lease_of files iface) h k
        | false ↦ k
      ]

-- The interfaces after the loop over the lease files.
abbrev Renewed : Map Text Health → Map Text Health → Type 0
Renewed m m' = AllValues IsFresh m' × IsSorted m' × ((i : Text) → Above i m → Above i m')

all-Renewed :
    (files : Files) (m : Map Text Health)
    → AllValues IsFresh m
    → IsSorted m
    → Holds (Renewed m) (update_all files m)
unfolding update_all
all-Renewed files [] fresh s = (tt, tt, λ i a. a)
all-Renewed files ((iface, h) ∷ rest) fresh s =
    both (update_nexthop files iface h) (update_all files rest)
      (nexthop-IsFresh files iface h fresh.0) (all-Renewed files rest fresh.1 s.1)
  where
    both :
        (x : Option Health) (y : Option (Map Text Health))
        → Holds IsFresh x
        → Holds (Renewed rest) y
        → Holds (Renewed ((iface, h) ∷ rest)) (elim x [
          | none ↦ none
          | some h' ↦ elim y [ none ↦ none | some rest' ↦ some ((iface, h') ∷ rest') ]
        ])
    both none y a b = tt
    both (some h') none a b = tt
    both (some h') (some rest') a b = ((a, b.0), (b.2 iface s.0, b.1), λ i above. above)

reset-IsFresh : (h : Health) → IsHealth h → IsFresh (record h { state_changed = false })
reset-IsFresh h k = (k, refl)

healthy : (m : Map Text Health) → AllValues IsFresh m → AllValues IsHealth m
healthy [] all = tt
healthy ((iface, h) ∷ m) all = (all.0.0, healthy m all.1)

-- What `update_dhcp_nexthop` leaves of fresh interfaces and sound data.
renewed :
    (files : Files) (d : Data)
    → IsSound d
    → AllValues IsFresh d.iface_health_coll
    → Holds
        (λ (d' : Data). IsSound d' × AllValues IsFresh d'.iface_health_coll)
        (update_dhcp_nexthop files d)
unfolding update_dhcp_nexthop
renewed files d s fresh =
    go (update_all files d.iface_health_coll)
      (all-Renewed files d.iface_health_coll fresh s.ifaces_in_order)
  where
    go :
        (o : Option (Map Text Health))
        → Holds (Renewed d.iface_health_coll) o
        → Holds
            (λ (d' : Data). IsSound d' × AllValues IsFresh d'.iface_health_coll)
            (elim o [ none ↦ none | some coll ↦ some (record d { iface_health_coll = coll }) ])
    go none r = tt
    go (some coll) r = (
      record {
        rules_in_order = s.rules_in_order;
        rules = s.rules;
        ifaces_in_order = r.1;
        ifaces = healthy coll r.0;
      },
      r.0,
    )

cycle_data :
    (files : Files) (d : Data)
    → IsSound d
    → Holds
        (λ (d' : Data). IsSound d' × AllValues IsFresh d'.iface_health_coll)
        (update_dhcp_nexthop files (reset_state_changed d))
unfolding reset_state_changed
cycle_data files d s = renewed files (reset_state_changed d) reset (cleared d)
  where
    cleared :
        (c : Data)
        → AllValues IsFresh
            (map_values (λ _ h. record h { state_changed = false }) d.iface_health_coll)
    cleared c =
        AllValues-map_values IsHealth IsFresh _ d.iface_health_coll (λ k. reset-IsFresh) s.ifaces

    reset : IsSound (reset_state_changed d)
    reset = record {
      rules_in_order = s.rules_in_order;
      rules = s.rules;
      ifaces_in_order = map_values-IsSorted _ d.iface_health_coll s.ifaces_in_order;
      ifaces = healthy _ (cleared d);
    }

-- What a cycle starts with.
abbrev Started : Bool × LoadBalance → Type 0
Started (ok, lb) = IsSound lb.lbdata × AllValues IsFresh lb.lbdata.iface_health_coll × (ok ≡ true)

cycle_state :
    (files : Files) (lb : LoadBalance) → IsSound lb.lbdata → Holds Started (start_cycle files lb)
unfolding start_cycle
cycle_state files lb s =
    go (update_dhcp_nexthop files (reset_state_changed lb.lbdata)) (cycle_data files lb.lbdata s)
  where
    go :
        (o : Option Data)
        → Holds (λ (d : Data). IsSound d × AllValues IsFresh d.iface_health_coll) o
        → Holds Started (elim o [ none ↦ none | some d ↦ some (true, record lb { lbdata = d }) ])
    go none k = tt
    go (some d) k = (k.0, k.1, refl)

-- If the data is sound when a cycle starts, and reading the lease files throws no exception, it is
-- sound afterwards and no interface is marked as changed; `start_cycle` then answers true, so that
-- the loop goes on.
pub start_cycle-IsSound :
    (files : Files) (lb lb' : LoadBalance) (ok : Bool)
    → IsSound lb.lbdata
    → start_cycle files lb ≡ some (ok, lb')
    → IsSound lb'.lbdata × AllValues IsFresh lb'.lbdata.iface_health_coll × (ok ≡ true)
start_cycle-IsSound files lb lb' ok s e = rw e at (cycle_state files lb s)
