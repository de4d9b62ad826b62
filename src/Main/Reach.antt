-- ===== src/Main/Reach.antt =====
-- What holds of the daemon whenever it runs.
use mathlib.Core.Path.{subst}
use vyatta_wanloadbalance.Common.{
  ℕ, ◌≡◌, ◌≢◌, refl, Bool, true, false, Option, none, some, ℤ, Holds, Bool-cases, inl, inr,
}
use vyatta_wanloadbalance.Data.{Data}
use vyatta_wanloadbalance.Float.{Float}
use vyatta_wanloadbalance.Factory.Sound.{IsSound}
use vyatta_wanloadbalance.PathTest.{Prober}
use vyatta_wanloadbalance.State.{reset_state_changed}
use vyatta_wanloadbalance.State.Lease.{update_dhcp_nexthop}
use vyatta_wanloadbalance.Decision.Shell.{System}
use vyatta_wanloadbalance.Decision.Sound.{update_paths-IsSound, run-IsSound}
use vyatta_wanloadbalance.LoadBalance.{
  LoadBalance, update_paths, apply_rules, health_test, start_cycle,
}
use vyatta_wanloadbalance.LoadBalance.Sound.{health_test-IsSound, health_test_ends}
use vyatta_wanloadbalance.LoadBalance.Steps.{start_cycle-IsSound}
use vyatta_wanloadbalance.Main.{
  Stage, checking, clearing, testing, applying, writing, sleeping, starting, ended, Round, Process,
  check, test, apply, next_cycle, sig_end, sig_user2, statement_at, advance, Step, statement,
  end_signal, check_signal, Reachable, here, later,
}

module _ (float : Float) (sys : System) (beyond : ℕ → ℤ) (prober : Prober) where
  abbrev P : Type 0
  P = Process float sys beyond prober

  abbrev pub Sound : P → Type 0
  Sound p = IsSound p.lb.lbdata

  check-Sound : (p : P) → Sound p → Sound (check float sys beyond prober p)
  unfolding check update_paths
  check-Sound p s = elim (Bool-cases p.check_path) [
    | inl set ↦ rw (check, set) (update_paths-IsSound sys p.lb.lbdata p.shell s)
    | inr clear ↦ rw (check, clear) s
  ]

  test-Sound : (r : Round) (p : P) → Sound p → Holds Sound (test float sys beyond prober r p)
  unfolding test
  test-Sound r p s =
      go (health_test beyond prober r.order p.lb p.world)
        (health_test-IsSound beyond prober r.order p.lb p.world s)
    where
      go :
          (o : Option (LoadBalance × prober.World))
          → Holds (λ (x : LoadBalance × prober.World). IsSound x.0.lbdata) o
          → Holds Sound (elim o as (λ (q : Option (LoadBalance × prober.World)). Option P) [
            | none ↦ none
            | some (lb, w) ↦ some (record p { stage = applying; lb = lb; world = w })
          ])
      go none q = tt
      go (some (lb, w)) q = q

  apply-Sound : (r : Round) (p : P) → Sound p → Sound (apply float sys beyond prober r p)
  unfolding apply apply_rules
  apply-Sound r p s = run-IsSound float sys r.clock p.lb.lbdata p.shell s

  next_cycle-Sound :
      (r : Round) (p : P) → Sound p → Holds Sound (next_cycle float sys beyond prober r p)
  unfolding next_cycle sig_end
  next_cycle-Sound r p s = go (start_cycle r.files p.lb) refl
    where
      go :
          (o : Option (Bool × LoadBalance))
          → start_cycle r.files p.lb ≡ o
          → Holds Sound (elim o as (λ (q : Option (Bool × LoadBalance)). Option P) [
            | none ↦ none
            | some (true, lb) ↦ some (record p { stage = checking; lb = lb })
            | some (false, lb) ↦ some (sig_end float sys beyond prober (record p { lb = lb }))
          ])
      go none e = tt
      go (some (true, lb)) e = (start_cycle-IsSound r.files p.lb lb true s e).0
      go (some (false, lb)) e = (start_cycle-IsSound r.files p.lb lb false s e).0

  statement-Sound :
      (stage : Stage) (r : Round) (p : P)
      → Sound p
      → Holds Sound (statement_at float sys beyond prober stage r p)
  unfolding statement_at
  statement-Sound checking r p s = check-Sound p s
  statement-Sound clearing r p s = s
  statement-Sound testing r p s = test-Sound r p s
  statement-Sound applying r p s = apply-Sound r p s
  statement-Sound writing r p s = s
  statement-Sound sleeping r p s = s
  statement-Sound starting r p s = next_cycle-Sound r p s
  statement-Sound ended r p s = tt

  Step-Sound : {p q : P} → Step float sys beyond prober p q → Sound p → Sound q
  unfolding sig_end sig_user2 advance
  Step-Sound {p} (statement r e) s = subst (Holds Sound) e (statement-Sound p.stage r p s)
  Step-Sound (end_signal live) s = s
  Step-Sound (check_signal live) s = s

  -- Whatever statements the loop takes and whatever signals come in between, the data of the daemon
  -- is sound if it was so at the start.
  pub Reachable-Sound : (p q : P) → Sound p → Reachable float sys beyond prober p q → Sound q
  Reachable-Sound p q s here = s
  Reachable-Sound p q s (later way step) = Step-Sound step (Reachable-Sound p _ s way)

  pub test_ends : (r : Round) (p : P) → (q : P) × (test float sys beyond prober r p ≡ some q)
  unfolding test
  test_ends r p =
      let ((lb, w), e) = health_test_ends beyond prober r.order p.lb p.world in
      (record p { stage = applying; lb = lb; world = w }, rw (test, e) refl)

  pub next_ends :
      (r : Round) (p : P) {d : Data}
      → update_dhcp_nexthop r.files (reset_state_changed p.lb.lbdata) ≡ some d
      → next_cycle float sys beyond prober r p
        ≡ some (record p { stage = checking; lb = record p.lb { lbdata = d } })
  unfolding next_cycle start_cycle
  next_ends r p read = rw (next_cycle, start_cycle, read) refl

  statement_ends :
      (stage : Stage) (r : Round) (p : P) {d : Data}
      → stage ≢ ended
      → update_dhcp_nexthop r.files (reset_state_changed p.lb.lbdata) ≡ some d
      → (q : P) × (statement_at float sys beyond prober stage r p ≡ some q)
  unfolding statement_at
  statement_ends checking r p live read = (_, refl)
  statement_ends clearing r p live read = (_, refl)
  statement_ends testing r p live read = test_ends r p
  statement_ends applying r p live read = (_, refl)
  statement_ends writing r p live read = (_, refl)
  statement_ends sleeping r p live read = (_, refl)
  statement_ends starting r p live read = (_, next_ends r p read)
  statement_ends ended r p live read = absurd (live refl)
