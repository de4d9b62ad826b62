-- ===== src/Data.antt =====
-- src/lbdata.hh and the data of src/lbtest*.hh: rules, health tests, interface health, and the
-- `LBData` object that the parser fills and the other parts share.
use vyatta_wanloadbalance.Common.{
  ℕ, Bool, List, ℤ, pos, Text, Map, [], ◌∷◌, lit, false, true, int_key, text_key,
}

-- `LBRule::LimitPeriod`.
pub data LimitPeriod : Type 0 where
  k_second k_minute k_hour : LimitPeriod

-- `LBRule`. A weight is an `int` that the parser sets to 0 or to a positive number.
pub record Rule : Type 0 where
  pub proto : Text
  pub s_addr : Text
  pub s_port : Text
  pub s_port_ipt : Text
  pub d_addr : Text
  pub d_port : Text
  pub d_port_ipt : Text
  pub exclude : Bool
  pub failover : Bool
  pub enable_source_based_routing : Bool
  pub limit : Bool
  pub limit_burst : Text
  pub limit_rate : Text
  pub limit_mode : Bool
  pub limit_period : LimitPeriod
  pub in_iface : Text
  pub iface_dist_coll : Map Text ℕ

-- `LBRule::LBRule()`.
unfoldable pub new_rule : Rule
unfolding lit
new_rule = record {
  proto = lit "all";
  s_addr = [];
  s_port = [];
  s_port_ipt = [];
  d_addr = [];
  d_port = [];
  d_port_ipt = [];
  exclude = false;
  failover = false;
  enable_source_based_routing = false;
  limit = false;
  limit_burst = lit "5";
  limit_rate = lit "1";
  limit_mode = false;
  limit_period = k_hour;
  in_iface = [];
  iface_dist_coll = [];
}

-- The subclasses of `LBTest`, each with its own members.
pub data TestKind : Type 0 where
  ping : TestKind
  udp : ℕ → ℕ → TestKind
  user : Text → TestKind

-- `LBTest::TestState`.
pub data TestState : Type 0 where
  k_none k_success k_failure : TestState

-- `LBTest`: its members that are not static.
pub record Test : Type 0 where
  pub kind : TestKind
  pub target : Text
  pub resp_time : ℤ
  pub state : TestState
  pub status_line : Text

-- What `LBTest::LBTest` makes of the members of a test. Its call of `init` runs the base `init`, so the
-- status line stays empty; what that does to the sockets is in `construct_tests` of PathTest.
unfoldable pub new_test : TestKind → Test
new_test kind = record {
  kind = kind;
  target = [];
  resp_time = pos 5000;
  state = k_none;
  status_line = [];
}

-- `LBHealthHistory`. `_index` is an `int` that counts the pushes of one run of the daemon.
pub record History : Type 0 where
  pub last_success : ℕ
  pub last_failure : ℕ
  pub failure_count : ℕ
  pub resp_data : List ℤ
  pub index : ℕ

-- `LBHealthHistory::LBHealthHistory`.
unfoldable pub new_history : History
new_history = record {
  last_success = 0;
  last_failure = 0;
  failure_count = 0;
  resp_data = pos 0 ∷ pos 0 ∷ pos 0 ∷ pos 0 ∷ pos 0 ∷ pos 0 ∷ pos 0 ∷ pos 0 ∷ pos 0 ∷ pos 0 ∷ [];
  index = 0;
}

-- `LBHealth`, less the members that no code reads. The thresholds are `int`s that the parser sets to
-- a positive number or leaves at 0. `test_iter` is the place in `test_coll`; its length is `end()`.
pub record Health : Type 0 where
  pub success_ct : ℕ
  pub failure_ct : ℕ
  pub nexthop : Text
  pub dhcp_nexthop : Text
  pub hresults : History
  pub is_active : Bool
  pub state_changed : Bool
  pub last_time_state_changed : ℕ
  pub interface : Text
  pub interface_index : ℕ
  pub address : Text
  pub test_coll : Map ℤ Test
  pub test_iter : ℕ

-- `LBHealth::LBHealth(int, string &)`.
unfoldable pub new_health : ℕ → Text → Health
unfolding new_history
new_health interface_index interface = record {
  success_ct = 0;
  failure_ct = 0;
  nexthop = [];
  dhcp_nexthop = [];
  hresults = new_history;
  is_active = true;
  state_changed = true;
  last_time_state_changed = 0;
  interface = interface;
  interface_index = interface_index;
  address = [];
  test_coll = [];
  test_iter = 0;
}

-- `LBData`.
pub record Data : Type 0 where
  pub lb_rule_coll : Map ℤ Rule
  pub iface_health_coll : Map Text Health
  pub disable_source_nat : Bool
  pub enable_local_traffic : Bool
  pub flush_conntrack : Bool
  pub sticky_inbound_connections : Bool
  pub hook : Text

-- `LBData::LBData`.
unfoldable pub new_data : Data
new_data = record {
  lb_rule_coll = [];
  iface_health_coll = [];
  disable_source_nat = false;
  enable_local_traffic = false;
  flush_conntrack = false;
  sticky_inbound_connections = false;
  hook = [];
}
