-- ===== src/LoadBalance.antt =====
-- src/loadbalance.cc: `LoadBalance`, the steps of the main loop.
pub mod Steps
pub mod Sound
pub mod Config
use Prim.Native.Nat.{max}
use vyatta_wanloadbalance.Common.{
  ℕ, zero, suc, ◌+◌, Bool, true, false, [], ◌∷◌, Option, none, some, Text, Map, List, ℤ, length,
  if◌then◌else◌,
}
use vyatta_wanloadbalance.Data.{Data, Health, new_data}
use vyatta_wanloadbalance.State.{reset_state_changed}
use vyatta_wanloadbalance.State.Lease.{Files, update_dhcp_nexthop}
use vyatta_wanloadbalance.Factory.{DataFactory, new_factory}
use vyatta_wanloadbalance.Factory.Load.{load}
use vyatta_wanloadbalance.Float.{Float}
use vyatta_wanloadbalance.PathTest.{Prober, path_test}
use vyatta_wanloadbalance.Decision.Shell.{System, Shell}
use vyatta_wanloadbalance.Decision.Paths as Paths
use vyatta_wanloadbalance.Decision.Setup as Setup
use vyatta_wanloadbalance.Decision.Rules.{run}
use vyatta_wanloadbalance.Decision.Teardown as Teardown
use vyatta_wanloadbalance.Output.{StatusFile, write_file}
use vyatta_wanloadbalance.Output as Output

-- `_lbdata_factory` and `_lbdata`.
pub record LoadBalance : Type 0 where
  pub lbdata_factory : DataFactory
  pub lbdata : Data

unfoldable pub new_load_balance : LoadBalance
new_load_balance = record { lbdata_factory = new_factory; lbdata = new_data }

-- `LBData::error`.
unfoldable pub error : Data → Bool
error d = false

-- `LoadBalance::set_conf`, given the content of the file, if it can be opened.
unfoldable pub set_conf : Option Text → LoadBalance → Option (Bool × LoadBalance)
unfolding error
set_conf content lb = elim (load content lb.lbdata_factory) [
  | none ↦ none
  | some (ok, f) ↦
      let lb' : LoadBalance = record { lbdata_factory = f; lbdata = f.lb_data } in
      elim (error lb'.lbdata) [ true ↦ some (false, lb') | false ↦ some (true, lb') ]
]

-- `LoadBalance::start_cycle`.
unfoldable pub start_cycle : Files → LoadBalance → Option (Bool × LoadBalance)
start_cycle files lb = elim (update_dhcp_nexthop files (reset_state_changed lb.lbdata)) [
  | none ↦ none
  | some d ↦ some (true, record lb { lbdata = d })
]

-- `LoadBalance::output`, where `opened` is whether the status file can be opened.
unfoldable pub output : (ℕ → Text) → ℕ → Bool → LoadBalance → StatusFile → StatusFile
output ctime cur opened lb file = write_file ctime cur opened lb.lbdata.iface_health_coll file

-- The greatest number of tests of an interface.
unfoldable pub most_tests : Map Text Health → ℕ
most_tests [] = 0
most_tests ((iface, h) ∷ rest) = max (length h.test_coll) (most_tests rest)

-- `LoadBalance::health_test`. The tests run on fuel for two rounds more than any interface has tests.
unfoldable pub health_test :
    (beyond : ℕ → ℤ) (prober : Prober)
    → List Text
    → LoadBalance
    → prober.World
    → Option (LoadBalance × prober.World)
unfolding most_tests
health_test beyond prober order lb w =
    elim (path_test beyond prober (suc (suc (most_tests lb.lbdata.iface_health_coll))) order
      lb.lbdata w) [ none ↦ none | some (d, w') ↦ some (record lb { lbdata = d }, w') ]

module _ (sys : System) where
  -- `LoadBalance::init`.
  unfoldable pub init : LoadBalance → Shell sys → LoadBalance × Shell sys
  init lb s = let (d, s') = Setup.init sys lb.lbdata s in (record lb { lbdata = d }, s')

  -- `LoadBalance::update_paths`.
  unfoldable pub update_paths : LoadBalance → Shell sys → LoadBalance × Shell sys
  update_paths lb s =
      let (d, s') = Paths.update_paths sys lb.lbdata s in (record lb { lbdata = d }, s')

  -- `LoadBalance::~LoadBalance`.
  unfoldable pub shutdown : LoadBalance → Shell sys → StatusFile → Shell sys × StatusFile
  shutdown lb s file = (Teardown.shutdown sys lb.lbdata s, Output.shutdown file)

  -- `LoadBalance::apply_rules`.
  unfoldable pub apply_rules :
      Float → (Text → ℕ) → LoadBalance → Shell sys → LoadBalance × Shell sys
  apply_rules float clock lb s =
      let (d, s') = run float sys clock lb.lbdata s in (record lb { lbdata = d }, s')
