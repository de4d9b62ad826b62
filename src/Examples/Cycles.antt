-- ===== src/Examples/Cycles.antt =====
-- The commands of the daemon for three interfaces.
use vyatta_wanloadbalance.Common.{◌≡◌, refl, ◌⊎◌, inl, [], ◌∷◌, ◌++◌, Text}
use vyatta_wanloadbalance.Decision.Shell.{drop_chain}
use vyatta_wanloadbalance.Decision.Shell.Log.{Has}
use vyatta_wanloadbalance.Decision.Setup.{chain_pre, mangle_setup}
use vyatta_wanloadbalance.Decision.Paths.{update_snat, update_paths}
use vyatta_wanloadbalance.Decision.Paths.Snat.{
  snat_commands, SameButAddress, log-update_snat, update_paths_frame,
}
use vyatta_wanloadbalance.Decision.Teardown.{shutdown_commands}
use vyatta_wanloadbalance.Decision.Teardown.Cleanup.{made_chains, shutdown_drops}
use vyatta_wanloadbalance.Examples.Fixtures.{fractions, quiet, started, eth0, up, three}

made_first : Has chain_pre (made_chains fractions three)
unfolding mangle_setup
made_first = inl refl

shutdown_drops_example : Has (drop_chain chain_pre) (shutdown_commands three)
shutdown_drops_example = shutdown_drops fractions three chain_pre made_first

-- An address in dots.
abbrev leased : Text
leased = b'1' ∷ b'0' ∷ []

log-update_snat_example :
    ((update_snat quiet (up 0 eth0) leased started).1.log
      ≡ started.log ++ snat_commands (up 0 eth0) leased)
    × (((update_snat quiet (up 0 eth0) leased started).0 ≡ up 0 eth0)
        ⊎ ((update_snat quiet (up 0 eth0) leased started).0
            ≡ record (up 0 eth0) { address = leased }))
log-update_snat_example = log-update_snat quiet (up 0 eth0) leased started

update_paths_frame_example :
    SameButAddress three.iface_health_coll (update_paths quiet three started).0.iface_health_coll
update_paths_frame_example = update_paths_frame quiet three started
