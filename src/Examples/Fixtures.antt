-- ===== src/Examples/Fixtures.antt =====
-- A `float` of exact fractions, a system on which every command succeeds, and two interfaces.
use vyatta_wanloadbalance.Common.{
  ℕ, ◌*◌, refl, Bool, true, false, [], ◌∷◌, some, Text, ℤ, pos, negsuc, ltb, arith, lit,
}
use vyatta_wanloadbalance.Data.{Data, Health, History}
use vyatta_wanloadbalance.Float.{Float, FloatLaws}
use vyatta_wanloadbalance.Decision.Shell.{System, Shell}

abbrev pub Fraction : Type 0
Fraction = ℤ × ℤ

abbrev above_zero : Fraction → Bool
above_zero (pos n, d) = ltb 0 n
above_zero (negsuc n, d) = false

abbrev small : Fraction → Bool
small (pos a, pos b) = ltb (100 * a) b
small (pos a, negsuc b) = true
small (negsuc a, d) = true

abbrev pub fractions : Float
fractions = record {
  F = Fraction;
  of_int = λ n. (n, pos 1);
  to_int = λ f. f.0;
  div = λ f g. (f.0, g.0);
  positive = above_zero;
  below_cent = small;
  fixed = λ f. lit "0.5";
}

pub fractions_laws : FloatLaws fractions
fractions_laws = record {
  to_int-of_int = λ n h. refl;
  positive-of_int = λ n h. refl;
  below_cent_zero = refl;
  below_cent-div = λ a b h l. ground arith;
  above_cent-div = λ a b h l m. ground arith;
  below_cent-div_neg = λ a b l. refl;
}

-- Every command succeeds and prints nothing; every interface has the same address.
abbrev pub quiet : System
quiet = record {
  World = Unit;
  popen = λ command read w. (some (0, []), w);
  socket = λ w. (true, w);
  get_addr = λ iface w. (some (lit "10.0.0.1"), w);
  set_hook_env = λ iface state w. w;
  unset_hook_env = λ w. w;
}

abbrev pub started : Shell quiet
started = record { world = tt; log = [] }

abbrev pub eth0 : Text
eth0 = b'0' ∷ []

abbrev pub eth1 : Text
eth1 = b'1' ∷ []

abbrev pub eth2 : Text
eth2 = b'2' ∷ []

-- A ring that has recorded one answer.
abbrev pub answered : History
answered = record {
  last_success = 1;
  last_failure = 0;
  failure_count = 0;
  resp_data = pos 5 ∷ pos 0 ∷ pos 0 ∷ pos 0 ∷ pos 0 ∷ pos 0 ∷ pos 0 ∷ pos 0 ∷ pos 0 ∷ pos 0 ∷ [];
  index = 1;
}

-- An active interface with thresholds of one success and two failures.
abbrev pub up : ℕ → Text → Health
up index iface = record {
  success_ct = 1;
  failure_ct = 2;
  nexthop = iface;
  dhcp_nexthop = [];
  hresults = answered;
  is_active = true;
  state_changed = true;
  last_time_state_changed = 0;
  interface = iface;
  interface_index = index;
  address = [];
  test_coll = [];
  test_iter = 0;
}

abbrev pub three : Data
three = record {
  lb_rule_coll = [];
  iface_health_coll = (eth0, up 0 eth0) ∷ (eth1, up 1 eth1) ∷ (eth2, up 2 eth2) ∷ [];
  disable_source_nat = false;
  enable_local_traffic = false;
  flush_conntrack = false;
  sticky_inbound_connections = true;
  hook = [];
}
