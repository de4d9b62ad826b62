-- ===== src/Examples/Daemon.antt =====
-- The daemon with the tests of the program, on a system on which every command succeeds.
use vyatta_wanloadbalance.Common.{
  ℕ, ◌≡◌, refl, true, false, [], ◌∷◌, none, some, Text, Map, ℤ, pos, text_eq, lit, Bool-cases, inl,
  inr,
}
use vyatta_wanloadbalance.Data.{Data, Health}
use vyatta_wanloadbalance.Factory.{new_factory}
use vyatta_wanloadbalance.State.Lease.{
  Files, lease_of, read_ppp, store_hop, update_nexthop, update_all, update_dhcp_nexthop,
}
use vyatta_wanloadbalance.PathTest.{Prober}
use vyatta_wanloadbalance.Probe.{new_engine}
use vyatta_wanloadbalance.Probe.Engines.{engines}
use vyatta_wanloadbalance.Main.{checking, Round, Process, sig_user2}
use vyatta_wanloadbalance.Main.Laps.{Composed, cycle_returns}
use vyatta_wanloadbalance.LoadBalance.{update_paths}
use vyatta_wanloadbalance.Examples.Fixtures.{fractions, quiet, started, eth0, three}
use vyatta_wanloadbalance.Examples.Probes.{lab}

abbrev pub zero_memory : ℕ → ℤ
zero_memory _ = pos 0

abbrev pub tests : Prober
tests = engines lab 3

abbrev pub Daemon : Type 0
Daemon = Process fractions quiet zero_memory tests

abbrev idle : Daemon
idle = record {
  stage = checking;
  lb = record { lbdata_factory = new_factory; lbdata = three };
  check_path = false;
  shell = started;
  world = (new_engine, 10);
  status = none;
}

-- No file can be opened.
abbrev no_files : Files
no_files path = none

abbrev a_round : Round
a_round = record {
  order = eth0 ∷ [];
  clock = λ iface. 10;
  cur = 10;
  ctime = λ t. [];
  opened = true;
  files = no_files;
}

abbrev woken : Daemon
woken = sig_user2 fractions quiet zero_memory tests idle

same_hop : (iface : Text) (h : Health) → update_nexthop no_files iface h ≡ some h
unfolding update_nexthop lease_of read_ppp store_hop
same_hop iface h = elim (Bool-cases (text_eq h.nexthop (lit "dhcp"))) [
  | inl dhcp ↦ rw (update_nexthop, dhcp) refl
  | inr fixed ↦ rw (update_nexthop, fixed) refl
]

reads_all : (m : Map Text Health) → update_all no_files m ≡ some m
unfolding update_all
reads_all [] = refl
reads_all ((iface, h) ∷ rest) = rw (update_all, same_hop iface h, reads_all rest) refl

reads : (d : Data) → (d' : Data) × (update_dhcp_nexthop no_files d ≡ some d')
unfolding update_dhcp_nexthop
reads d = (d, rw (update_dhcp_nexthop, reads_all d.iface_health_coll) refl)

cycle_returns_example :
    Composed fractions quiet zero_memory tests a_round 7 woken
      (update_paths quiet woken.lb woken.shell)
unfolding sig_user2
cycle_returns_example = cycle_returns fractions quiet zero_memory tests a_round reads woken refl
