-- ===== src/Examples/Rounds.antt =====
-- A cycle of tests of one interface with one test, which fails.
use vyatta_wanloadbalance.Common.{
  All, AllValues, ℕ, ◌+◌, ◌≤◌, ◌≡◌, [], ◌∷◌, some, List, Text, ℤ, pos, minus_one, length, arith,
}
use vyatta_wanloadbalance.Data.{Data, Health, ping, k_none}
use vyatta_wanloadbalance.PathTest.{Prober, begin, store, path_test}
use vyatta_wanloadbalance.PathTest.Steps.{After}
use vyatta_wanloadbalance.PathTest.Rounds.{histories, path_test_ends}
use vyatta_wanloadbalance.Examples.Fixtures.{eth0, up, three}

-- No test is ever answered, and each one takes a second.
abbrev silent : Prober
silent = record {
  World = ℕ;
  init = λ w. some w;
  start = λ t w. (t, w);
  send = λ h t w. (t, w);
  recv = λ h t w. (minus_one, t, w + 1);
  now = λ w. w;
}

abbrev nothing : ℕ → ℤ
nothing _ = pos 0

abbrev pinged : Data
pinged = record three {
  iface_health_coll =
      (
        eth0,
        record (up 0 eth0) {
          test_coll =
              (
                pos 1,
                record {
                  kind = ping;
                  target = [];
                  resp_time = pos 5000;
                  state = k_none;
                  status_line = [];
                },
              )
              ∷ [];
        },
      )
      ∷ [];
}

few : AllValues (λ (h : Health). length h.test_coll ≤ 1) pinged.iface_health_coll
few = (ground arith, tt)

path_test_ends_example :
    (tested : List (Text × Health)) × (w : ℕ) × (path_test nothing silent 3 (eth0 ∷ []) pinged 7
      ≡ some (store nothing silent tested pinged, w))
    × All (After nothing (histories pinged)) tested
    × (length tested ≡ length (begin nothing silent (eth0 ∷ []) pinged))
path_test_ends_example = path_test_ends nothing silent 1 (eth0 ∷ []) pinged 7 few
