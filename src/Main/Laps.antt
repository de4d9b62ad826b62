-- ===== src/Main/Laps.antt =====
-- The loop goes round.
use mathlib.Core.Path.{subst}
use vyatta_wanloadbalance.Common.{
  ℕ, zero, suc, ◌≡◌, refl, sym, ap, ◌∙◌, Bool, true, false, Option, none, some, ℤ, Bool-cases, inl,
  inr, if◌then◌else◌,
}
use vyatta_wanloadbalance.Data.{Data}
use vyatta_wanloadbalance.Float.{Float}
use vyatta_wanloadbalance.PathTest.{Prober}
use vyatta_wanloadbalance.State.{reset_state_changed}
use vyatta_wanloadbalance.State.Lease.{update_dhcp_nexthop}
use vyatta_wanloadbalance.Decision.Shell.{System, Shell}
use vyatta_wanloadbalance.LoadBalance.{
  LoadBalance, update_paths, health_test, apply_rules, output, start_cycle,
}
use vyatta_wanloadbalance.LoadBalance.Sound.{health_test_ends}
use vyatta_wanloadbalance.Main.{
  Stage, checking, clearing, testing, applying, writing, sleeping, starting, Round, Process, check,
  test, apply, next_cycle, statement_at, advance,
}
use vyatta_wanloadbalance.Main.Reach.{next_ends}

module _ (float : Float) (sys : System) (beyond : ℕ → ℤ) (prober : Prober) (r : Round) where
  abbrev P : Type 0
  P = Process float sys beyond prober

  -- A number of statements with no signal between them.
  unfoldable pub laps :
      ℕ → Process float sys beyond prober → Option (Process float sys beyond prober)
  laps zero p = some p
  laps (suc n) p = elim (advance float sys beyond prober r p) [ none ↦ none | some q ↦ laps n q ]

  -- One cycle as a composition: the tests on the data of an interface check or of the last cycle, the
  -- rules, the status file, and the start of the next cycle.
  abbrev pub Composed : ℕ → P → LoadBalance × Shell sys → Type 0
  Composed n p (lb1, s1) =
      (lb2 : LoadBalance) × (w : prober.World) × (lb4 : LoadBalance) × (health_test beyond prober
          r.order lb1 p.world
        ≡ some (lb2, w))
      × (start_cycle r.files (apply_rules sys float r.clock lb2 s1).0 ≡ some (true, lb4))
      × (laps n p
          ≡ some (record {
            stage = checking;
            lb = lb4;
            check_path = false;
            shell = (apply_rules sys float r.clock lb2 s1).1;
            world = w;
            status =
                output r.ctime r.cur r.opened (apply_rules sys float r.clock lb2 s1).0 p.status;
          }))

  -- A statement in front of others.
  step :
      (n : ℕ) (stage : Stage) (p q : P) {o : Option P}
      → p.stage ≡ stage
      → statement_at float sys beyond prober stage r p ≡ some q
      → laps n q ≡ o
      → laps (suc n) p ≡ o
  unfolding laps advance
  step n stage p q at e run =
      ap onward (ap (λ st. statement_at float sys beyond prober st r p) at ∙ e) ∙ run
    where
      onward : Option P → Option P
      onward o = elim o [ none ↦ none | some q' ↦ laps n q' ]

  module _ (reads : (d : Data) → (d' : Data) × (update_dhcp_nexthop r.files d ≡ some d')) where
    from_testing : (p : P) → p.stage ≡ testing → p.check_path ≡ false → Composed 5 p (p.lb, p.shell)
    unfolding statement_at test apply laps start_cycle next_cycle
    from_testing p at clear =
        let ((lb2, w), e) = health_test_ends beyond prober r.order p.lb p.world in
        let (lb3, s3) = apply_rules sys float r.clock lb2 p.shell in
        let (d, read) = reads (reset_state_changed lb3.lbdata) in
        let p1 : P = record p { stage = applying; lb = lb2; world = w } in
        let p2 : P = record p1 { stage = writing; lb = lb3; shell = s3 } in
        let p3 : P = record p2 {
          stage = sleeping;
          status = output r.ctime r.cur r.opened lb3 p.status;
        } in
        let p4 : P = record p3 { stage = starting } in
        (
          lb2,
          w,
          record lb3 { lbdata = d },
          e,
          rw (start_cycle, read) refl,
          step 4 testing p p1 at (rw (test, e) refl) (
              step 3 applying p1 p2 refl refl (
                step 2 writing p2 p3 refl refl (
                  step 1 sleeping p3 p4 refl refl (
                    step 0 starting p4 _ refl (next_ends float sys beyond prober r p4 read) (
                      ap
                        (λ b. some (record p4 {
                          stage = checking;
                          lb = record lb3 { lbdata = d };
                          check_path = b;
                        }))
                        clear))))),
        )

    -- If reading the lease files throws no exception, the loop comes back to its top from there, in
    -- six statements, or in seven with a check of the paths. Where a check has been requested, the paths
    -- are brought up to date before the tests, and the request is taken back; in both cases the tests,
    -- the rules, the status file and the start of the next cycle follow on what the step before them
    -- leaves, in this order, and nothing else happens. So the loop never ends by itself.
    pub cycle_returns :
        (p : P)
        → p.stage ≡ checking
        → Composed
            (if p.check_path then 7 else 6)
            p
            (if p.check_path then update_paths sys p.lb p.shell else (p.lb, p.shell))
    unfolding statement_at
    cycle_returns p at = elim (Bool-cases p.check_path) [
      | inl set ↦
          let (lb, s) = update_paths sys p.lb p.shell in
          let p1 : P = record p { stage = clearing; lb = lb; shell = s } in
          let p2 : P = record p1 { stage = testing; check_path = false } in
          let (lb2, w, lb4, tests, starts, run) = from_testing p2 refl refl in
          subst
            (λ b.
              Composed (if b then 7 else 6) p
                (if b then update_paths sys p.lb p.shell else (p.lb, p.shell)))
            (sym set)
            (
              lb2,
              w,
              lb4,
              tests,
              starts,
              step 6 checking p p1 at (unfold check in ap (pick p1) set)
                  (step 5 clearing p1 p2 refl refl run),
            )
      | inr clear ↦
          let (lb, s) = update_paths sys p.lb p.shell in
          let p1 : P = record p { stage = clearing; lb = lb; shell = s } in
          let p2 : P = record p { stage = testing } in
          let (lb2, w, lb4, tests, starts, run) = from_testing p2 refl clear in
          subst
            (λ b.
              Composed (if b then 7 else 6) p
                (if b then update_paths sys p.lb p.shell else (p.lb, p.shell)))
            (sym clear)
            (
              lb2,
              w,
              lb4,
              tests,
              starts,
              step 5 checking p p2 at (unfold check in ap (pick p1) clear) run,
            )
    ]
      where
        pick : P → Bool → Option P
        pick p1 b = some (if b then p1 else record p { stage = testing })
