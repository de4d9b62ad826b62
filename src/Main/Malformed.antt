-- ===== src/Main/Malformed.antt =====
-- The daemon on a configuration that `load` rejects.
use vyatta_wanloadbalance.Common.{
  ℕ, ◌≡◌, ◌≢◌, refl, ap, ◌∙◌, inl, inr, Bool, true, false, List, Option, none, some, Text, ℤ, lit,
  is_empty, Bool-cases,
}
use vyatta_wanloadbalance.Float.{Float}
use vyatta_wanloadbalance.State.Lease.{fgets_lines}
use vyatta_wanloadbalance.PathTest.{Prober, construct_tests}
use vyatta_wanloadbalance.Factory.{DataFactory, new_factory}
use vyatta_wanloadbalance.Factory.Load.{load}
use vyatta_wanloadbalance.Factory.Loaded.Depth.{occurrences_in}
use vyatta_wanloadbalance.Factory.Loaded.Braces.{load_balanced}
use vyatta_wanloadbalance.Decision.Shell.{System, Shell}
use vyatta_wanloadbalance.Decision.Setup.{init}
use vyatta_wanloadbalance.LoadBalance.{LoadBalance, new_load_balance}
use vyatta_wanloadbalance.LoadBalance as LoadBalance
use vyatta_wanloadbalance.LoadBalance.Steps.{set_conf_accepts}
use vyatta_wanloadbalance.Main.{Args, defaults, parse_options, running, startup, checking}

module _ (float : Float) (sys : System) (beyond : ℕ → ℤ) (prober : Prober) where
  -- Out of test mode, with a group and with a configuration file whose opening and closing braces are
  -- not as many as each other: where `load` ends it answers false, but the daemon gets into its loop
  -- all the same, with the data as far as `load` has read it, unless the constructors of the tests
  -- end the process.
  pub unbalanced_runs :
      (options : List (ℕ × Text)) (files : Text → Option Text) (s : Shell sys) (w w' : prober.World)
      (a : Args) (content : Text) (ok : Bool) (f : DataFactory)
      → parse_options options defaults ≡ some a
      → is_empty a.c_file ≡ false
      → a.config_debug_mode ≡ false
      → files a.c_file ≡ some content
      → occurrences_in (lit "{") (fgets_lines content)
        ≢ occurrences_in (lit "}") (fgets_lines content)
      → load (some content) new_factory ≡ some (ok, f)
      → construct_tests prober f.lb_data w ≡ some w'
      → (ok ≡ false)
        × (startup float sys beyond prober options files true s w
            ≡ some (
                running (record {
                  stage = checking;
                  lb = record { lbdata_factory = f; lbdata = (init sys f.lb_data s).0 };
                  check_path = false;
                  shell = (init sys f.lb_data s).1;
                  world = w';
                  status = none;
                })))
  unfolding startup LoadBalance.init new_load_balance
  unbalanced_runs options files s w w' a content ok f opts named live file odd read built = (
    elim (Bool-cases ok) [
      | inl accepted ↦
          absurd (odd (load_balanced content new_factory f (read ∙ ap (λ b. some (b, f)) accepted)))
      | inr rejected ↦ rejected
    ],
    rw
        (
          startup,
          opts,
          named,
          file,
          set_conf_accepts (some content) new_load_balance ok f read,
          built,
          live,
        )
        refl,
  )
