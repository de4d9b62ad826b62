-- ===== src/LoadBalance/Sound.antt =====
-- The steps of the loop keep the data sound, and the tests always end.
use mathlib.Core.Path.{subst}
use vyatta_wanloadbalance.Common.{
  ℕ, zero, suc, ◌≤◌, ◌≡◌, refl, sym, List, [], ◌∷◌, Option, none, some, Text, Map, ℤ, length, set,
  get_elem?, AllValues, Holds, IsSorted, Above, map_values-IsSorted, text_key, int_key, arith,
}
use vyatta_wanloadbalance.Data.{Data, Health, Test}
use vyatta_wanloadbalance.Ring.Push.{IsRing, push-IsRing}
use vyatta_wanloadbalance.Health.{put}
use vyatta_wanloadbalance.Health.Verdict.{put_frame}
use vyatta_wanloadbalance.Factory.Sound.{IsHealth, IsInt, IsSound}
use vyatta_wanloadbalance.PathTest.{
  Prober, start_new_test_cycle, current, set_current, store, path_test,
}
use vyatta_wanloadbalance.PathTest.Kept.{IsKept, Stored, path_test_kept}
use vyatta_wanloadbalance.PathTest.Rounds.{path_test_ends}
use vyatta_wanloadbalance.LoadBalance.{LoadBalance, most_tests, health_test}

number :
    {k num : ℤ} {u t : Test} → ◌≡◌ {A = Option (ℤ × Test)} (some (k, u)) (some (num, t)) → k ≡ num
number e = cc

set_current-Above :
    (i : ℤ) (m : Map ℤ Test) (n : ℕ) (num : ℤ) (t t' : Test)
    → get_elem? m n ≡ some (num, t)
    → Above i m
    → Above i (set m n (num, t'))
set_current-Above i [] n num t t' e a = a
set_current-Above i ((k, u) ∷ m) zero num t t' e a =
    subst (λ z. Above i ((z, t') ∷ [])) (number e) a
set_current-Above i ((k, u) ∷ m) (suc n) num t t' e a = a

-- The write through the iterator leaves the number of the test.
set-IsSorted :
    (m : Map ℤ Test) (n : ℕ) (num : ℤ) (t t' : Test)
    → get_elem? m n ≡ some (num, t)
    → IsSorted m
    → IsSorted (set m n (num, t'))
set-IsSorted [] n num t t' e s = s
set-IsSorted ((k, u) ∷ m) zero num t t' e s = (subst (λ z. Above z m) (number e) s.0, s.1)
set-IsSorted ((k, u) ∷ m) (suc n) num t t' e s =
    (set_current-Above k m n num t t' e s.0, set-IsSorted m n num t t' e s.1)

module _ (beyond : ℕ → ℤ) where
  cycle-IsHealth : (h : Health) → IsHealth h → IsHealth (start_new_test_cycle h)
  unfolding start_new_test_cycle
  cycle-IsHealth h k = (map_values-IsSorted _ h.test_coll k.0, k.1, k.2, k.3)

  current-IsHealth :
      (h : Health) (num : ℤ) (t t' : Test)
      → current h ≡ some (num, t)
      → IsHealth h
      → IsHealth (set_current num t' h)
  unfolding current set_current
  current-IsHealth h num t t' e k =
      (set-IsSorted h.test_coll h.test_iter num t t' e k.0, k.1, k.2, k.3)

  put-IsHealth : (now : ℕ) (rtt : ℤ) (h : Health) → IsHealth h → IsHealth (put beyond now rtt h)
  put-IsHealth now rtt h k =
      let frame = put_frame beyond now rtt h in
      (
        subst IsSorted (sym frame.8) k.0,
        subst IsInt (sym frame.1) k.1,
        subst IsInt (sym frame.2) k.2,
        subst IsRing (sym frame.0) (push-IsRing beyond now rtt h.hresults k.3),
      )

  IsHealth-IsKept : IsKept beyond IsHealth
  IsHealth-IsKept = record {
    cycle = cycle-IsHealth;
    test = current-IsHealth;
    next = λ h i k. k;
    result = put-IsHealth;
  }

few_tests :
    (n : ℕ) (m : Map Text Health)
    → most_tests m ≤ n
    → AllValues (λ (h : Health). length h.test_coll ≤ n) m
unfolding most_tests
few_tests n [] le = tt
few_tests n ((iface, h) ∷ rest) le = (omega arith, few_tests n rest (omega arith))

module _ (beyond : ℕ → ℤ) (prober : Prober) where
  open prober use {World}

  pub health_test-IsSound :
      (order : List Text) (lb : LoadBalance) (w : World)
      → IsSound lb.lbdata
      → Holds
          (λ (r : LoadBalance × World). IsSound r.0.lbdata)
          (health_test beyond prober order lb w)
  unfolding health_test
  health_test-IsSound order lb w s =
      go (path_test beyond prober _ order lb.lbdata w) (
        path_test_kept beyond prober IsHealth (IsHealth-IsKept beyond) _ order lb.lbdata w s.ifaces)
    where
      go :
          (o : Option (Data × World))
          → Holds
              (λ (r : Data × World).
                Stored beyond prober IsHealth (IsHealth-IsKept beyond) lb.lbdata r.0)
              o
          → Holds
              (λ (r : LoadBalance × World). IsSound r.0.lbdata)
              (elim o [ none ↦ none | some (d, w') ↦ some (record lb { lbdata = d }, w') ])
      go none p = tt
      go (some (d, w')) p = subst IsSound (sym p.2) (record {
        rules_in_order = s.rules_in_order;
        rules = s.rules;
        ifaces_in_order = p.1 s.ifaces_in_order;
        ifaces = p.0;
      })

  -- The tests of a round always end.
  pub health_test_ends :
      (order : List Text) (lb : LoadBalance) (w : World)
      → (r : LoadBalance × World) × (health_test beyond prober order lb w ≡ some r)
  unfolding health_test
  health_test_ends order lb w =
      let ends =
        path_test_ends beyond prober (most_tests lb.lbdata.iface_health_coll) order lb.lbdata w
          (few_tests _ lb.lbdata.iface_health_coll (omega arith)) in
      (
        (record lb { lbdata = store beyond prober ends.0 lb.lbdata }, ends.1),
        rw (health_test, ends.2) refl,
      )
