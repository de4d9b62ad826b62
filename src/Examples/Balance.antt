-- ===== src/Examples/Balance.antt =====
-- Weights of rules that share and of rules that fail over.
use vyatta_wanloadbalance.Common.{
  ℕ, ◌≤◌, ◌*◌, ◌≡◌, refl, Bool, true, false, [], ◌∷◌, some, none, Text, Map, pos, arith, last?,
  text_key, IsSorted, find, compare_text,
}
use vyatta_wanloadbalance.Data.{Rule, k_hour}
use vyatta_wanloadbalance.State.{is_active}
use vyatta_wanloadbalance.Float.{exact_max}
use vyatta_wanloadbalance.Weights.{get_new_weights}
use vyatta_wanloadbalance.Weights.Sharing.{
  total, shares, get_new_weights-sharing, last_active, whole, last-get_new_weights,
}
use vyatta_wanloadbalance.Weights.Proportion.{
  parts, AreLarge, passed, wholes, quotients, get_new_weights_proportion,
}
use vyatta_wanloadbalance.Weights.Track.{lead, ArePositive}
use vyatta_wanloadbalance.Weights.Failover.{
  best, climbs, failover_selects_best, failover_misses_best,
}
use vyatta_wanloadbalance.Examples.Fixtures.{
  Fraction, fractions, fractions_laws, eth0, eth1, eth2, three,
}

abbrev balanced : Bool → Map Text ℕ → Rule
balanced failover weights = record {
  proto = [];
  s_addr = [];
  s_port = [];
  s_port_ipt = [];
  d_addr = [];
  d_port = [];
  d_port_ipt = [];
  exclude = false;
  failover = failover;
  enable_source_based_routing = false;
  limit = false;
  limit_burst = [];
  limit_rate = [];
  limit_mode = false;
  limit_period = k_hour;
  in_iface = [];
  iface_dist_coll = weights;
}

abbrev uneven : Map Text ℕ
uneven = (eth0, 3) ∷ (eth1, 1) ∷ (eth2, 2) ∷ []

abbrev rising : Map Text ℕ
rising = (eth0, 1) ∷ (eth1, 4) ∷ (eth2, 2) ∷ []

uneven-IsSorted : IsSorted uneven
uneven-IsSorted = unfold compare_text in (refl, (refl, (tt, tt)))

rising-IsSorted : IsSorted rising
rising-IsSorted = unfold compare_text in (refl, (refl, (tt, tt)))

total_six : total three uneven ≡ 6
unfolding total is_active find compare_text
total_six = refl

in_range : total three uneven ≤ exact_max
in_range = omega (arith, total_six)

get_new_weights-sharing_example :
    get_new_weights fractions three (balanced false uneven) ≡ shares fractions three uneven
get_new_weights-sharing_example =
    get_new_weights-sharing fractions three (balanced false uneven) fractions_laws refl
      uneven-IsSorted in_range

last-get_new_weights_example :
    last? (get_new_weights fractions three (balanced false uneven))
    ≡ whole fractions (last_active fractions three uneven)
last-get_new_weights_example =
    last-get_new_weights fractions three (balanced false uneven) fractions_laws refl uneven-IsSorted
      in_range

lead-rising : lead three rising 0 none ≡ (some (eth1, 4), 2)
unfolding lead is_active find compare_text
lead-rising = refl

climbs-rising : climbs three rising 0 0 ≡ true
unfolding climbs is_active find compare_text
climbs-rising = refl

rising_positive : ArePositive rising
rising_positive =
    (ground arith, ground arith, (ground arith, ground arith, (ground arith, ground arith, tt)))

failover_selects_best_example :
    (4 ≡ best three rising 0)
    × ((rest : Map Text Fraction) × (get_new_weights fractions three (balanced true rising)
          ≡ (eth1, (pos 4, pos 2)) ∷ rest))
failover_selects_best_example =
    failover_selects_best fractions three (balanced true rising) eth1 4 2 fractions_laws refl
      rising-IsSorted rising_positive lead-rising climbs-rising

failover_misses_best_example :
    (best three uneven 0 ≡ 3)
    × ((rest : Map Text Fraction) × (get_new_weights fractions three (balanced true uneven)
          ≡ (eth2, (pos 2, pos 2)) ∷ rest))
unfolding is_active find compare_text
failover_misses_best_example =
    failover_misses_best fractions three (balanced true uneven) eth0 eth1 eth2 3 1 2 fractions_laws
      refl refl uneven-IsSorted
      (ground arith, ground arith, (ground arith, ground arith, (ground arith, ground arith, tt)))
      refl refl refl (ground arith) (ground arith)

uneven-parts : parts three uneven ≡ (eth0, (3, 6)) ∷ (eth1, (1, 3)) ∷ (eth2, (2, 2)) ∷ []
unfolding parts total is_active find compare_text
uneven-parts = refl

uneven-AreLarge : AreLarge (parts three uneven)
uneven-AreLarge = rw uneven-parts (ground arith, (ground arith, (ground arith, tt)))

get_new_weights_proportion_example :
    (get_new_weights fractions three (balanced false uneven)
      ≡ quotients fractions (parts three uneven))
    × (passed ((eth0, (3, 6)) ∷ (eth1, (1, 3)) ∷ []) * 2 * total three uneven
        ≡ 2 * (wholes ((eth0, (3, 6)) ∷ (eth1, (1, 3)) ∷ []) * 2))
get_new_weights_proportion_example =
    get_new_weights_proportion fractions three (balanced false uneven)
      ((eth0, (3, 6)) ∷ (eth1, (1, 3)) ∷ []) [] eth2 2 2 fractions_laws refl uneven-IsSorted
      in_range uneven-AreLarge uneven-parts
