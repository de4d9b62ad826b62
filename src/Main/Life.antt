-- ===== src/Main/Life.antt =====
-- The daemon from its start to its end.
use mathlib.Core.Path.{subst}
use mathlib.Core.List.{append-nil}
use vyatta_wanloadbalance.Common.{
  ℕ, ◌≡◌, refl, sym, ap, ◌∙◌, ◌⊎◌, inl, inr, Bool, true, false, List, [], ◌++◌, Option, none, some,
  Text, ℤ, Holds, Bool-cases, Option-cases, is_empty, text_key, if◌then◌else◌,
}
use vyatta_wanloadbalance.Data.{Data}
use vyatta_wanloadbalance.Float.{Float}
use vyatta_wanloadbalance.PathTest.{Prober, construct_tests}
use vyatta_wanloadbalance.Factory.{DataFactory, new_factory}
use vyatta_wanloadbalance.Factory.Load.{load}
use vyatta_wanloadbalance.Factory.Loaded.{load-IsSound}
use vyatta_wanloadbalance.Factory.Sound.{IsSound, new_factory-IsSound}
use vyatta_wanloadbalance.Decision.Shell.{Command, System, Shell}
use vyatta_wanloadbalance.Decision.Shell.Log.{
  Has, Has-left, Has-right, Has-split, created, created-append,
}
use vyatta_wanloadbalance.Decision.Setup.{mangle_setup, init}
use vyatta_wanloadbalance.Decision.Setup.Chains.{iface_chains, created-init}
use vyatta_wanloadbalance.Decision.Sound.{init-IsSound}
use vyatta_wanloadbalance.Decision.Created.{init-SameConfig}
use vyatta_wanloadbalance.Decision.Teardown.{shutdown_commands}
use vyatta_wanloadbalance.Decision.Teardown.Cleanup.{made_chains, shutdown_drops}
use vyatta_wanloadbalance.Decision.Teardown.Config.{dropped, Has-dropped, dropped-SameConfig}
use vyatta_wanloadbalance.LoadBalance.{LoadBalance, new_load_balance, error, set_conf}
use vyatta_wanloadbalance.LoadBalance as LoadBalance
use vyatta_wanloadbalance.Main.{
  Args, defaults, parse_options, Process, Started, exited, running, startup, Stage, checking,
  clearing, testing, applying, writing, sleeping, starting, ended, Reachable,
}
use vyatta_wanloadbalance.Main.Reach.{Sound, Reachable-Sound}
use vyatta_wanloadbalance.Main.Cleanup.{
  created-shutdown_commands, Covers, Clean, GoodAt, Good, Reachable-Good,
}

module _ (float : Float) (sys : System) (beyond : ℕ → ℤ) (prober : Prober) where
  abbrev P : Type 0
  P = Process float sys beyond prober

  -- How the start ends that leads to the loop.
  abbrev Begins : Shell sys → Started float sys beyond prober → Type 0
  Begins s (exited n) = Unit {0}
  Begins s (running p) =
      Sound float sys beyond prober p × (created s.log ≡ [] → Good float sys beyond prober p)

  init-Covers :
      (d : Data) (s : Shell sys)
      → created s.log ≡ []
      → Covers float sys beyond prober (init sys d s).1.log (init sys d s).0
  init-Covers d s empty chain made =
      subst (Has chain) (sym (dropped-SameConfig d _ (init-SameConfig sys d s))) (
        Has-dropped chain (shutdown_commands d)
          (shutdown_drops float d chain (go (Has-split chain (created (mangle_setup d)) _ split))))
    where
      split : Has chain (created (mangle_setup d) ++ iface_chains d d.iface_health_coll)
      split =
          subst (Has chain)
            (created-init sys d s
              ∙ ap (λ cs. cs ++ (created (mangle_setup d) ++ iface_chains d d.iface_health_coll))
                  empty)
            made

      go :
          Has chain (created (mangle_setup d)) ⊎ Has chain (iface_chains d d.iface_health_coll)
          → Has chain (made_chains float d)
      go (inl base) = Has-left chain (created (mangle_setup d)) _ base
      go (inr iface) = Has-right chain (created (mangle_setup d)) _ (Has-left chain _ _ iface)

  set_conf-IsSound :
      (content : Option Text)
      → Holds (λ (x : Bool × LoadBalance). IsSound x.1.lbdata) (set_conf content new_load_balance)
  unfolding set_conf error new_load_balance
  set_conf-IsSound content = go (load content new_factory) refl
    where
      go :
          (o : Option (Bool × DataFactory))
          → load content new_factory ≡ o
          → Holds
              (λ (x : Bool × LoadBalance). IsSound x.1.lbdata)
              (elim o as (λ (q : Option (Bool × DataFactory)). Option (Bool × LoadBalance)) [
                | none ↦ none
                | some (ok, f) ↦ some (true, record { lbdata_factory = f; lbdata = f.lb_data })
              ])
      go none e = tt
      go (some (ok, f)) e = load-IsSound content new_factory f ok new_factory-IsSound e

  startup-Begins :
      (options : List (ℕ × Text)) (files : Text → Option Text) (group : Bool) (s : Shell sys)
      (w : prober.World)
      → Holds (Begins s) (startup float sys beyond prober options files group s w)
  unfolding startup LoadBalance.init
  startup-Begins options files group s w = elim (Option-cases (parse_options options defaults)) [
    | inl e ↦ rw (startup, e) tt
    | inr (a, e) ↦ elim (Bool-cases (is_empty a.c_file)) [
      | inl nofile ↦ rw (startup, e, nofile) tt
      | inr named ↦
          rw (startup, e, named)
            (loaded a (set_conf (files a.c_file) new_load_balance)
              (set_conf-IsSound (files a.c_file)))
    ]
  ]
    where
      begun : LoadBalance → prober.World → P
      begun lb w' = record {
        stage = checking;
        lb = record lb { lbdata = (init sys lb.lbdata s).0 };
        check_path = false;
        shell = (init sys lb.lbdata s).1;
        world = w';
        status = none;
      }

      grouped :
          (b : Bool) (lb : LoadBalance) (w' : prober.World)
          → IsSound lb.lbdata
          → Begins s (if b then running (begun lb w') else exited 1)
      grouped false lb w' k = tt
      grouped true lb w' k =
          (init-IsSound sys lb.lbdata s k, λ empty. init-Covers lb.lbdata s empty)

      started :
          (success debug : Bool) (lb : LoadBalance) (w' : prober.World)
          → IsSound lb.lbdata
          → Begins s (
              if success
              then if debug then exited 0 else if group then running (begun lb w') else exited 1
              else exited 0)
      started false debug lb w' k = tt
      started true true lb w' k = tt
      started true false lb w' k = grouped group lb w' k

      ready :
          (success debug : Bool) (lb : LoadBalance) (o : Option prober.World)
          → IsSound lb.lbdata
          → Holds
              (Begins s)
              (elim o as (λ (q : Option prober.World). Option (Started float sys beyond prober)) [
                | none ↦ none
                | some w' ↦ some (
                    if success
                    then if debug
                      then exited 0
                      else if group
                      then running (begun lb w')
                      else exited 1
                    else exited 0)
              ])
      ready success debug lb none k = tt
      ready success debug lb (some w') k = started success debug lb w' k

      loaded :
          (a : Args) (o : Option (Bool × LoadBalance))
          → Holds (λ (x : Bool × LoadBalance). IsSound x.1.lbdata) o
          → Holds
              (Begins s)
              (elim o
                as (λ (q : Option (Bool × LoadBalance)). Option (Started float sys beyond prober)) [
                  | none ↦ none
                  | some (success, lb) ↦ elim (construct_tests prober lb.lbdata w) [
                    | none ↦ none
                    | some w' ↦ some (
                        if success
                        then if a.config_debug_mode
                          then exited 0
                          else if group
                          then running (begun lb w')
                          else exited 1
                        else exited 0)
                  ]
                ])
      loaded a none k = tt
      loaded a (some (success, lb)) k =
          ready success a.config_debug_mode lb (construct_tests prober lb.lbdata w) k

  -- Whatever the options and the configuration file are, once the start has led to the loop the data
  -- is sound there, and it stays so whatever statements the loop takes and whatever signals come in
  -- between.
  pub startup-Sound :
      (options : List (ℕ × Text)) (files : Text → Option Text) (group : Bool) (s : Shell sys)
      (w : prober.World) (p q : P)
      → startup float sys beyond prober options files group s w ≡ some (running p)
      → Reachable float sys beyond prober p q
      → IsSound q.lb.lbdata
  startup-Sound options files group s w p q start way =
      Reachable-Sound float sys beyond prober p q
        (subst (Holds (Begins s)) start (startup-Begins options files group s w)).0 way

  ended-Clean :
      (stage : Stage) (q : P)
      → stage ≡ ended
      → GoodAt float sys beyond prober stage q
      → Clean float sys beyond prober q
  ended-Clean checking q e g = cc
  ended-Clean clearing q e g = cc
  ended-Clean testing q e g = cc
  ended-Clean applying q e g = cc
  ended-Clean writing q e g = cc
  ended-Clean sleeping q e g = cc
  ended-Clean starting q e g = cc
  ended-Clean ended q e g = g

  -- Of a daemon that began on a log with no chain created, got into its loop and has ended, whatever
  -- statements it took and whatever signals came in between: every chain that was ever created is
  -- dropped by the last of its commands, which create none.
  pub Reachable-drops :
      (options : List (ℕ × Text)) (files : Text → Option Text) (group : Bool) (s : Shell sys)
      (w : prober.World) (p q : P) (chain : Text)
      → created s.log ≡ []
      → startup float sys beyond prober options files group s w ≡ some (running p)
      → Reachable float sys beyond prober p q
      → q.stage ≡ ended
      → Has chain (created q.shell.log)
      → (before last : List Command) × (q.shell.log ≡ before ++ last)
        × (created last ≡ [])
        × Has chain (dropped last)
  Reachable-drops options files group s w p q chain empty start way end made =
      let good =
        Reachable-Good float sys beyond prober p q
          ((subst (Holds (Begins s)) start (startup-Begins options files group s w)).1 empty) way in
      let (before, log, covers) = ended-Clean q.stage q end good in
      let last = shutdown_commands q.lb.lbdata in
      (
        before,
        last,
        log,
        created-shutdown_commands q.lb.lbdata,
        covers chain (
            subst (Has chain)
              (ap created log
                ∙ created-append before last
                ∙ ap (λ cs. created before ++ cs) (created-shutdown_commands q.lb.lbdata)
                ∙ append-nil (created before))
              made),
      )
