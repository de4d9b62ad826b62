-- ===== src/PathTest/Steps.antt =====
-- One interface in one round of tests.
use vyatta_wanloadbalance.Common.{
  ℕ, zero, suc, ◌+◌, ◌≤◌, ◌≡◌, refl, ap, ◌∙◌, Bool, true, false, none, Text, ℤ, minus_one,
  get_elem?_out, length, length-set, arith, int_key, text_key, if◌then◌else◌, Option-cases, inl,
  inr,
}
use vyatta_wanloadbalance.Data.{Health, History, Test}
use vyatta_wanloadbalance.Ring.{push}
use vyatta_wanloadbalance.Health.{put}
use vyatta_wanloadbalance.Health.Verdict.{put_frame}
use vyatta_wanloadbalance.PathTest.{
  Prober, current, set_current, start_new_test, send_test, recv_test,
}

-- An interface has at most `n` tests left.
abbrev pub Within : ℕ → Health → Type 0
Within n h = length h.test_coll ≤ h.test_iter + n

-- The same, with the history that it had at the start.
abbrev pub Before : ℕ → (Text → History) → Text × Health → Type 0
Before n old (iface, h) = Within n h × (h.hresults ≡ old iface)

-- One result has been pushed to the history that the interface had at the start.
abbrev pub After : (ℕ → ℤ) → (Text → History) → Text × Health → Type 0
After beyond old (iface, h) =
    (now : ℕ) × (rtt : ℤ) × (h.hresults ≡ (push beyond now rtt (old iface)).1)

current-end : (h : Health) → Within 0 h → current h ≡ none
unfolding current
current-end h e = get_elem?_out h.test_coll h.test_iter (omega arith)

module _ (beyond : ℕ → ℤ) (prober : Prober) (old : Text → History) where
  open prober use {World}

  kept_length :
      (n : ℕ) (iface : Text) (h : Health) (num : ℤ) (t : Test)
      → Before n old (iface, h)
      → Before n old (iface, set_current num t h)
  unfolding set_current
  kept_length n iface h num t b =
      (omega (arith, length-set h.test_coll h.test_iter (num, t), b.0), b.1)

  pub start-Before :
      (n : ℕ) (iface : Text) (h : Health) (w : World)
      → Before n old (iface, h)
      → Before n old (iface, (start_new_test beyond prober h w).0)
  unfolding start_new_test
  start-Before n iface h w b = elim (Option-cases (current h)) [
    | inl e ↦ rw (start_new_test, e) b
    | inr (c, e) ↦ rw (start_new_test, e) (kept_length n iface h c.0 _ b)
  ]

  pub send-Before :
      (n : ℕ) (iface : Text) (h : Health) (w : World)
      → Before n old (iface, h)
      → Before n old (iface, (send_test beyond prober h w).0)
  unfolding send_test
  send-Before n iface h w b = elim (Option-cases (current h)) [
    | inl e ↦ rw (send_test, e) b
    | inr (c, e) ↦ rw (send_test, e) (kept_length n iface h c.0 _ b)
  ]

  -- An interface that is done has its result; one that is not has a test less before it.
  abbrev pub Received : ℕ → Text → Bool × Health × World → Type 0
  Received n iface (true, h, w) = After beyond old (iface, h)
  Received zero iface (false, h, w) = ⊥
  Received (suc n) iface (false, h, w) = Before n old (iface, h)

  put-After :
      (now : ℕ) (rtt : ℤ) (iface : Text) (h : Health)
      → h.hresults ≡ old iface
      → After beyond old (iface, put beyond now rtt h)
  put-After now rtt iface h e =
      (now, rtt, (put_frame beyond now rtt h).0 ∙ ap (λ r. (push beyond now rtt r).1) e)

  -- What `recv_test` does with the answer of a test.
  answered :
      (n : ℕ) (b : Bool) (iface : Text) (rtt : ℤ) (next : Health) (w : World)
      → suc (length next.test_coll) ≤ next.test_iter + n
      → ((n ≡ 0) → ⊥)
      → next.hresults ≡ old iface
      → Received n iface
          (if b then (true, put beyond (prober.now w) rtt next, w) else (false, next, w))
  answered n true iface rtt next w le some_left e = put-After _ rtt iface next e
  answered zero false iface rtt next w le some_left e = some_left refl
  answered (suc n) false iface rtt next w le some_left e = (omega arith, e)

  pub recv-Received :
      (n : ℕ) (iface : Text) (h : Health) (w : World)
      → Before n old (iface, h)
      → Received n iface (recv_test beyond prober h w)
  unfolding recv_test set_current
  recv-Received n iface h w b = elim (Option-cases (current h)) [
    | inl e ↦ rw (recv_test, e) (put-After _ minus_one iface h b.1)
    | inr (c, e) ↦
        rw (recv_test, e)
          (answered n _ iface (prober.recv h c.1 w).0 (next c) (prober.recv h c.1 w).2
            (omega (arith, length-set h.test_coll h.test_iter (c.0, (prober.recv h c.1 w).1), b.0))
            (λ z. cc (e, current-end h (omega (arith, z, b.0)))) b.1)
  ]
    where
      next : ℤ × Test → Health
      next c = record (set_current c.0 (prober.recv h c.1 w).1 h) { test_iter = h.test_iter + 1 }
