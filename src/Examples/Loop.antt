-- ===== src/Examples/Loop.antt =====
-- The main loop on a file that cannot be opened, and without lease files.
use vyatta_wanloadbalance.Common.{
  ◌≡◌, refl, true, false, none, some, AllValues, map_values, ℕ, Text, arith, lit, text_eq,
  compare_text,
}
use vyatta_wanloadbalance.State.{reset_state_changed}
use vyatta_wanloadbalance.State.Lease.{
  Files, update_dhcp_nexthop, update_all, update_nexthop, store_hop,
}
use vyatta_wanloadbalance.Factory.{new_factory}
use vyatta_wanloadbalance.Factory.Load.{load}
use vyatta_wanloadbalance.Factory.Sound.{IsHealth, IsSound}
use vyatta_wanloadbalance.LoadBalance.{LoadBalance, start_cycle}
use vyatta_wanloadbalance.LoadBalance.Steps.{IsFresh, start_cycle-IsSound}
use vyatta_wanloadbalance.Examples.Fixtures.{eth0, eth1, eth2, up, three}

abbrev before : LoadBalance
before = record { lbdata_factory = new_factory; lbdata = three }

refused : load none new_factory ≡ some (false, new_factory)
unfolding load
refused = refl

pub three-IsSound : IsSound three
unfolding compare_text
three-IsSound = record {
  rules_in_order = tt;
  rules = tt;
  ifaces_in_order = (refl, (refl, (tt, tt)));
  ifaces = (up-IsHealth 0 eth0, (up-IsHealth 1 eth1, (up-IsHealth 2 eth2, tt)));
}
  where
    up-IsHealth : (index : ℕ) (iface : Text) → IsHealth (up index iface)
    up-IsHealth index iface = (tt, ground arith, ground arith, record { full = refl })

-- No file can be opened.
abbrev no_files : Files
no_files path = none

abbrev next : LoadBalance
next = record before { lbdata = reset_state_changed three }

goes_on : start_cycle no_files before ≡ some (true, next)
unfolding start_cycle update_dhcp_nexthop update_all update_nexthop store_hop reset_state_changed
    map_values text_eq compare_text lit
goes_on = refl

start_cycle-IsSound_example :
    IsSound next.lbdata × AllValues IsFresh next.lbdata.iface_health_coll × (true ≡ true)
start_cycle-IsSound_example = start_cycle-IsSound no_files before next true three-IsSound goes_on
