-- ===== src/Main/Cleanup.antt =====
-- The chains of the mangle table over the whole run of the daemon.
use mathlib.Core.Path.{subst}
use vyatta_wanloadbalance.Common.{
  ℕ, ◌≡◌, ◌≢◌, refl, sym, ap, ◌∙◌, inl, inr, Bool, true, false, List, [], ◌∷◌, ◌++◌, Option, none,
  some, Text, Map, ℤ, Holds, Bool-cases, arith, text_key,
}
use vyatta_wanloadbalance.Data.{Data, Health, Rule}
use vyatta_wanloadbalance.Float.{Float}
use vyatta_wanloadbalance.PathTest.{Prober}
use vyatta_wanloadbalance.Decision.Shell.{Command, System}
use vyatta_wanloadbalance.Decision.Shell.Log.{Has, created, created-append, log-execute_all}
use vyatta_wanloadbalance.Decision.Teardown.{
  limit_teardown, limits_teardown, iface_teardown, ifaces_teardown, nat_teardown, chains_teardown,
  shutdown_commands,
}
use vyatta_wanloadbalance.Decision.Teardown as Teardown
use vyatta_wanloadbalance.Decision.Teardown.Config.{dropped, SameConfig, dropped-SameConfig}
use vyatta_wanloadbalance.Decision.Created.{
  created-update_paths, update_paths-SameConfig, run-SameConfig, run_creates,
}
use vyatta_wanloadbalance.LoadBalance.{
  LoadBalance, update_paths, apply_rules, health_test, start_cycle, shutdown,
}
use vyatta_wanloadbalance.LoadBalance.Config.{health_test-SameConfig, start_cycle-SameConfig}
use vyatta_wanloadbalance.Main.{
  Stage, checking, clearing, testing, applying, writing, sleeping, starting, ended, Round, Process,
  check, test, apply, next_cycle, sig_end, sig_user2, statement_at, advance, Step, statement,
  end_signal, check_signal, Reachable, here, later,
}

none_created : (xs ys : List Command) → created xs ≡ [] → created ys ≡ [] → created (xs ++ ys) ≡ []
none_created xs ys p q = created-append xs ys ∙ ap (λ cs. cs ++ created ys) p ∙ q

created-limits_teardown :
    (local : Bool) (rules : Map ℤ Rule) → created (limits_teardown local rules) ≡ []
unfolding limits_teardown limit_teardown
created-limits_teardown local [] = refl
created-limits_teardown local ((num, rule) ∷ rest) =
    none_created (limit_teardown local num rule) (limits_teardown local rest) (ground arith)
      (created-limits_teardown local rest)

created-ifaces_teardown :
    (sticky : Bool) (m : Map Text Health) → created (ifaces_teardown sticky m) ≡ []
unfolding ifaces_teardown iface_teardown
created-ifaces_teardown sticky [] = refl
created-ifaces_teardown sticky ((iface, h) ∷ rest) =
    none_created (iface_teardown sticky iface h) (ifaces_teardown sticky rest) (ground arith)
      (created-ifaces_teardown sticky rest)

pub created-shutdown_commands : (d : Data) → created (shutdown_commands d) ≡ []
unfolding shutdown_commands chains_teardown nat_teardown
created-shutdown_commands d =
    none_created (chains_teardown d.enable_local_traffic) _ (base d.enable_local_traffic) (
      none_created (limits_teardown d.enable_local_traffic d.lb_rule_coll) _
        (created-limits_teardown d.enable_local_traffic d.lb_rule_coll)
        (created-ifaces_teardown d.sticky_inbound_connections d.iface_health_coll))
  where
    base : (local : Bool) → created (chains_teardown local) ≡ []
    base true = refl
    base false = refl

module _ (float : Float) (sys : System) (beyond : ℕ → ℤ) (prober : Prober) where
  abbrev P : Type 0
  P = Process float sys beyond prober

  -- What has been created by these commands is dropped by a shutdown now.
  abbrev pub Covers : List Command → Data → Type 0
  Covers log d =
      (chain : Text) → Has chain (created log) → Has chain (dropped (shutdown_commands d))

  -- The commands of a shutdown have come last, and they drop all that was created before.
  abbrev pub Clean : P → Type 0
  Clean p =
      (before : List Command) × (p.shell.log ≡ before ++ shutdown_commands p.lb.lbdata)
      × Covers before p.lb.lbdata

  abbrev pub GoodAt : Stage → P → Type 0
  GoodAt checking p = Covers p.shell.log p.lb.lbdata
  GoodAt clearing p = Covers p.shell.log p.lb.lbdata
  GoodAt testing p = Covers p.shell.log p.lb.lbdata
  GoodAt applying p = Covers p.shell.log p.lb.lbdata
  GoodAt writing p = Covers p.shell.log p.lb.lbdata
  GoodAt sleeping p = Covers p.shell.log p.lb.lbdata
  GoodAt starting p = Covers p.shell.log p.lb.lbdata
  GoodAt ended p = Clean p

  abbrev pub Good : P → Type 0
  Good p = GoodAt p.stage p

  GoodAt-live :
      (stage : Stage) (p : P) → stage ≢ ended → GoodAt stage p → Covers p.shell.log p.lb.lbdata
  GoodAt-live checking p live g = g
  GoodAt-live clearing p live g = g
  GoodAt-live testing p live g = g
  GoodAt-live applying p live g = g
  GoodAt-live writing p live g = g
  GoodAt-live sleeping p live g = g
  GoodAt-live starting p live g = g
  GoodAt-live ended p live g = absurd (live refl)

  Covers-SameConfig :
      (log : List Command) (d d' : Data) → SameConfig d d' → Covers log d → Covers log d'
  Covers-SameConfig log d d' same c chain made =
      subst (Has chain) (sym (dropped-SameConfig d d' same)) (c chain made)

  check-Good : (p : P) → Covers p.shell.log p.lb.lbdata → Good (check float sys beyond prober p)
  unfolding check update_paths
  check-Good p c = elim (Bool-cases p.check_path) [
    | inl set ↦
        rw (check, set)
          (λ chain made.
            Covers-SameConfig p.shell.log p.lb.lbdata _
              (update_paths-SameConfig sys p.lb.lbdata p.shell) c chain
              (subst (Has chain) (created-update_paths sys p.lb.lbdata p.shell) made))
    | inr clear ↦ rw (check, clear) c
  ]

  test-Good :
      (r : Round) (p : P)
      → Covers p.shell.log p.lb.lbdata
      → Holds Good (test float sys beyond prober r p)
  unfolding test
  test-Good r p c =
      go (health_test beyond prober r.order p.lb p.world)
        (health_test-SameConfig beyond prober r.order p.lb p.world)
    where
      go :
          (o : Option (LoadBalance × prober.World))
          → Holds (λ (x : LoadBalance × prober.World). SameConfig p.lb.lbdata x.0.lbdata) o
          → Holds Good (elim o as (λ (q : Option (LoadBalance × prober.World)). Option P) [
            | none ↦ none
            | some (lb, w) ↦ some (record p { stage = applying; lb = lb; world = w })
          ])
      go none same = tt
      go (some (lb, w)) same = Covers-SameConfig p.shell.log p.lb.lbdata lb.lbdata same c

  apply-Good :
      (r : Round) (p : P)
      → Covers p.shell.log p.lb.lbdata
      → Good (apply float sys beyond prober r p)
  unfolding apply apply_rules
  apply-Good r p c chain made =
      elim (run_creates float sys r.clock p.lb.lbdata p.shell chain made) [
        | inl old ↦
            Covers-SameConfig p.shell.log p.lb.lbdata _
              (run-SameConfig float sys r.clock p.lb.lbdata p.shell) c chain old
        | inr new ↦ new
      ]

  sig_end-Clean :
      (p : P) → Covers p.shell.log p.lb.lbdata → Clean (sig_end float sys beyond prober p)
  unfolding sig_end shutdown Teardown.shutdown
  sig_end-Clean p c = (p.shell.log, log-execute_all sys (shutdown_commands p.lb.lbdata) p.shell, c)

  next_cycle-Good :
      (r : Round) (p : P)
      → Covers p.shell.log p.lb.lbdata
      → Holds Good (next_cycle float sys beyond prober r p)
  unfolding next_cycle sig_end
  next_cycle-Good r p c = go (start_cycle r.files p.lb) (start_cycle-SameConfig r.files p.lb)
    where
      go :
          (o : Option (Bool × LoadBalance))
          → Holds (λ (x : Bool × LoadBalance). SameConfig p.lb.lbdata x.1.lbdata) o
          → Holds Good (elim o as (λ (q : Option (Bool × LoadBalance)). Option P) [
            | none ↦ none
            | some (true, lb) ↦ some (record p { stage = checking; lb = lb })
            | some (false, lb) ↦ some (sig_end float sys beyond prober (record p { lb = lb }))
          ])
      go none same = tt
      go (some (true, lb)) same = Covers-SameConfig p.shell.log p.lb.lbdata lb.lbdata same c
      go (some (false, lb)) same =
          sig_end-Clean (record p { lb = lb })
            (Covers-SameConfig p.shell.log p.lb.lbdata lb.lbdata same c)

  statement-Good :
      (stage : Stage) (r : Round) (p : P)
      → GoodAt stage p
      → Holds Good (statement_at float sys beyond prober stage r p)
  unfolding statement_at
  statement-Good checking r p g = check-Good p g
  statement-Good clearing r p g = g
  statement-Good testing r p g = test-Good r p g
  statement-Good applying r p g = apply-Good r p g
  statement-Good writing r p g = g
  statement-Good sleeping r p g = g
  statement-Good starting r p g = next_cycle-Good r p g
  statement-Good ended r p g = tt

  sig_user2-Good :
      (stage : Stage) (p : P) → GoodAt stage p → GoodAt stage (sig_user2 float sys beyond prober p)
  unfolding sig_user2
  sig_user2-Good checking p g = g
  sig_user2-Good clearing p g = g
  sig_user2-Good testing p g = g
  sig_user2-Good applying p g = g
  sig_user2-Good writing p g = g
  sig_user2-Good sleeping p g = g
  sig_user2-Good starting p g = g
  sig_user2-Good ended p g = g

  Step-Good : {p q : P} → Step float sys beyond prober p q → Good p → Good q
  unfolding sig_end sig_user2 advance
  Step-Good {p} (statement r e) g = subst (Holds Good) e (statement-Good p.stage r p g)
  Step-Good {p} (end_signal live) g = sig_end-Clean p (GoodAt-live p.stage p live g)
  Step-Good {p} (check_signal live) g = sig_user2-Good p.stage p g

  pub Reachable-Good : (p q : P) → Good p → Reachable float sys beyond prober p q → Good q
  Reachable-Good p q g here = g
  Reachable-Good p q g (later way step) = Step-Good step (Reachable-Good p _ g way)
