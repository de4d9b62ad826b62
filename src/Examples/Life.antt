-- ===== src/Examples/Life.antt =====
-- The daemon on a configuration file of one interface, ended at the top of its loop.
use mathlib.Core.Path.{subst}
use vyatta_wanloadbalance.Common.{
  pos, ℕ, ◌≡◌, refl, sym, ap, ◌∙◌, inl, false, true, List, [], ◌∷◌, ◌++◌, Option, none, some, Text,
}
use vyatta_wanloadbalance.Data.{Data}
use vyatta_wanloadbalance.Factory.Sound.{IsSound}
use vyatta_wanloadbalance.Probe.{Engine, new_engine}
use vyatta_wanloadbalance.Probe as Probe
use vyatta_wanloadbalance.PathTest.{construct_tests}
use vyatta_wanloadbalance.Decision.Shell.{Command}
use vyatta_wanloadbalance.Decision.Shell.Log.{
  Has, Has-left, created, created-append, log-execute_all,
}
use vyatta_wanloadbalance.Decision.Setup.{chain_pre, mangle_setup, init}
use vyatta_wanloadbalance.Decision.Setup.Chains.{created-init}
use vyatta_wanloadbalance.Decision.Teardown.{shutdown_commands}
use vyatta_wanloadbalance.Decision.Teardown as Teardown
use vyatta_wanloadbalance.Decision.Teardown.Config.{dropped}
use vyatta_wanloadbalance.LoadBalance.{LoadBalance, new_load_balance, set_conf, shutdown}
use vyatta_wanloadbalance.LoadBalance as LoadBalance
use vyatta_wanloadbalance.LoadBalance.Steps.{set_conf_accepts}
use vyatta_wanloadbalance.Main.{
  running, startup, parse_option, parse_options, defaults, checking, ended, sig_end, Reachable,
  end_signal, here, later,
}
use vyatta_wanloadbalance.Main.Life.{startup-Sound, Reachable-drops}
use vyatta_wanloadbalance.Examples.Fixtures.{fractions, quiet, started}
use vyatta_wanloadbalance.Examples.Configs.{config, loaded, accepted, loaded-has_test}
use vyatta_wanloadbalance.Examples.Daemon.{zero_memory, tests, Daemon}

abbrev named : List (ℕ × Text)
named = (b'f', b'c' ∷ []) ∷ []

-- Every path names the configuration file.
abbrev one_file : Text → Option Text
one_file path = some config

abbrev d0 : Data
d0 = loaded.lb_data

-- The engine with its three sockets.
abbrev opened : Engine
opened = record new_engine {
  send_icmp_sock = pos 3;
  send_raw_sock = pos 3;
  recv_icmp_sock = pos 3;
  initialized = true;
}

constructed : construct_tests tests d0 (new_engine, 10) ≡ some (opened, 10)
unfolding construct_tests Probe.init new_engine
constructed = rw loaded-has_test refl

abbrev begun : Daemon
begun = record {
  stage = checking;
  lb = record { lbdata_factory = loaded; lbdata = (init quiet d0 started).0 };
  check_path = false;
  shell = (init quiet d0 started).1;
  world = (opened, 10);
  status = none;
}

begins :
    startup fractions quiet zero_memory tests named one_file true started (new_engine, 10)
    ≡ some (running begun)
unfolding startup parse_options parse_option defaults new_load_balance LoadBalance.init
begins =
    rw (startup, set_conf_accepts (some config) new_load_balance true loaded accepted, constructed)
      refl

abbrev over : Daemon
over = sig_end fractions quiet zero_memory tests begun

ends : Reachable fractions quiet zero_memory tests begun over
ends = later here (end_signal (λ e. cc))

startup-Sound_example : IsSound over.lb.lbdata
startup-Sound_example =
    startup-Sound fractions quiet zero_memory tests named one_file true started (new_engine, 10)
      begun over begins ends

is_over : over.stage ≡ ended
unfolding sig_end
is_over = refl

made : Has chain_pre (created over.shell.log)
unfolding sig_end shutdown Teardown.shutdown mangle_setup
made =
    subst (Has chain_pre)
      (sym (
        ap created (log-execute_all quiet (shutdown_commands begun.lb.lbdata) begun.shell)
        ∙ created-append begun.shell.log (shutdown_commands begun.lb.lbdata)))
      (Has-left chain_pre _ _
        (subst (Has chain_pre) (sym (created-init quiet d0 started)) (inl refl)))

Reachable-drops_example :
    (before last : List Command) × (over.shell.log ≡ before ++ last)
    × (created last ≡ [])
    × Has chain_pre (dropped last)
Reachable-drops_example =
    Reachable-drops fractions quiet zero_memory tests named one_file true started (new_engine, 10)
      begun over chain_pre refl begins ends is_over made
