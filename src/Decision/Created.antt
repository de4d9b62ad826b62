-- ===== src/Decision/Created.antt =====
-- The chains that a cycle creates are among those that `shutdown` drops, and no step of a cycle changes
-- the configuration.
use mathlib.Core.Path.{subst}
use mathlib.Core.List.{append-nil}
use vyatta_wanloadbalance.Common.{
  ℕ, ◌≡◌, refl, sym, ap, ◌∙◌, ◌⊎◌, inl, inr, Bool, true, false, List, [], ◌∷◌, ◌++◌, Text, Map,
  keys, keys-map_values, is_empty, arith, text_key, not, ◌&&◌, if◌then◌else◌,
}
use vyatta_wanloadbalance.Data.{Data, Health}
use vyatta_wanloadbalance.Float.{Float}
use vyatta_wanloadbalance.State.{stamp, state_changed}
use vyatta_wanloadbalance.Decision.Shell.{Command, System, Shell, execute}
use vyatta_wanloadbalance.Decision.Shell.Log.{
  Has, Has-right, Has-split, created, created-append, log-execute,
}
use vyatta_wanloadbalance.Decision.Paths.{
  contains, table_of, default_route, show_routes, insert_default, fetch_iface_addr, update_route,
  update_snat, update_path, update_each, update_paths,
}
use vyatta_wanloadbalance.Decision.Paths.Snat.{snat_commands, log-update_snat}
use vyatta_wanloadbalance.Decision.Setup.{mangle_setup, init}
use vyatta_wanloadbalance.Decision.Setup.Chains.{iface_chains, log-fetch_iface_addr}
use vyatta_wanloadbalance.Decision.Rules.{flush_commands, rules_commands, run}
use vyatta_wanloadbalance.Decision.Rules.Cycle.{hook_commands, log-run}
use vyatta_wanloadbalance.Decision.Teardown.{shutdown_commands}
use vyatta_wanloadbalance.Decision.Teardown.Cleanup.{shutdown_drops}
use vyatta_wanloadbalance.Decision.Teardown.Config.{
  dropped, Has-dropped, SameConfig, SameConfig-trans,
}
use vyatta_wanloadbalance.Decision.Sound.{
  Readdressed, update_paths-Readdressed, init-Readdressed, run_data,
}

keys-Readdressed : (m m' : Map Text Health) → Readdressed m m' → keys m' ≡ keys m
keys-Readdressed [] [] s = refl
keys-Readdressed [] (x ∷ m') s = absurd s
keys-Readdressed ((i, h) ∷ m) [] s = absurd s
keys-Readdressed ((i, h) ∷ m) ((j, h') ∷ m') s = cc (s.0, keys-Readdressed m m' s.2)

created-snat_commands : (h : Health) (addr : Text) → created (snat_commands h addr) ≡ []
unfolding snat_commands
created-snat_commands h addr = ground arith

module _ (sys : System) where
  created-if :
      (b : Bool) (s s1 s2 : Shell sys)
      → created s1.log ≡ created s.log
      → created s2.log ≡ created s.log
      → created (if b then s1 else s2).log ≡ created s.log
  created-if true s s1 s2 p q = p
  created-if false s s1 s2 p q = q

  created-execute :
      (command : Command) (read : Bool) (s : Shell sys)
      → created (command ∷ []) ≡ []
      → created (execute sys command read s).2.log ≡ created s.log
  created-execute command read s none_made =
      ap created (log-execute sys command read s)
      ∙ created-append s.log (command ∷ [])
      ∙ ap (λ cs. created s.log ++ cs) none_made
      ∙ append-nil (created s.log)

  created-insert_default :
      (h : Health) (hop : Text) (s : Shell sys)
      → created (insert_default sys h hop s).log ≡ created s.log
  unfolding insert_default default_route show_routes
  created-insert_default h hop s =
      let (_, output, s1) = execute sys (show_routes (table_of h)) true s in
      let replace = default_route (table_of h) h.interface hop in
      let shown = created-execute (show_routes (table_of h)) true s refl in
      created-if (not (is_empty output) && (contains hop output && contains h.interface output)) s
        s1 (execute sys replace false s1).2 shown (created-execute replace false s1 refl ∙ shown)

  created-update_route :
      (h : Health) (s : Shell sys) → created (update_route sys h s).log ≡ created s.log
  unfolding update_route
  created-update_route h s =
      ground
        (arith, created-insert_default h h.dhcp_nexthop s, created-insert_default h h.nexthop s)

  created-update_snat :
      (h : Health) (addr : Text) (s : Shell sys)
      → created (update_snat sys h addr s).1.log ≡ created s.log
  created-update_snat h addr s =
      ap created (log-update_snat sys h addr s).0
      ∙ created-append s.log (snat_commands h addr)
      ∙ ap (λ cs. created s.log ++ cs) (created-snat_commands h addr)
      ∙ append-nil (created s.log)

  created-update_path :
      (off : Bool) (iface : Text) (h : Health) (s : Shell sys)
      → created (update_path sys off iface h s).1.log ≡ created s.log
  unfolding update_path
  created-update_path off iface h s =
      let (addr, s1) = fetch_iface_addr sys iface s in
      let s2 = update_route sys h s1 in
      let routed : created s2.log ≡ created s.log =
        created-update_route h s1 ∙ ap created (log-fetch_iface_addr sys iface s) in
      split h.is_active off (update_snat sys h addr s2) s2 (created-update_snat h addr s2 ∙ routed)
        routed
    where
      split :
          (active off : Bool) (r : Health × Shell sys) (s2 : Shell sys)
          → created r.1.log ≡ created s.log
          → created s2.log ≡ created s.log
          → created
              (if◌then◌else◌ {A = Health × Shell sys} active
                (if off then (h, s2) else r)
                (h, s)).1.log
            ≡ created s.log
      split true true r s2 p q = q
      split true false r s2 p q = p
      split false off r s2 p q = refl

  created-update_each :
      (off : Bool) (m : Map Text Health) (s : Shell sys)
      → created (update_each sys off m s).1.log ≡ created s.log
  unfolding update_each
  created-update_each off [] s = refl
  created-update_each off ((iface, h) ∷ rest) s =
      created-update_each off rest (update_path sys off iface h s).1
      ∙ created-update_path off iface h s

  -- Bringing the paths up to date creates no chain.
  pub created-update_paths :
      (d : Data) (s : Shell sys) → created (update_paths sys d s).1.log ≡ created s.log
  unfolding update_paths
  created-update_paths d s = created-update_each d.disable_source_nat d.iface_health_coll s

  pub update_paths-SameConfig : (d : Data) (s : Shell sys) → SameConfig d (update_paths sys d s).0
  unfolding update_paths
  update_paths-SameConfig d s = record {
    rules = refl;
    local = refl;
    sticky = refl;
    ifaces = keys-Readdressed d.iface_health_coll _ (update_paths-Readdressed sys d s);
  }

  pub init-SameConfig : (d : Data) (s : Shell sys) → SameConfig d (init sys d s).0
  unfolding init
  init-SameConfig d s = record {
    rules = refl;
    local = refl;
    sticky = refl;
    ifaces = keys-Readdressed d.iface_health_coll _ (init-Readdressed sys d s);
  }

state_changed-SameConfig : (clock : Text → ℕ) (d : Data) → SameConfig d (state_changed clock d).1
unfolding state_changed
state_changed-SameConfig clock d = record {
  rules = refl;
  local = refl;
  sticky = refl;
  ifaces = keys-map_values (stamp clock) d.iface_health_coll;
}

created-hook_commands :
    (hook : Text) (changed : Map Text Text) → created (hook_commands hook changed) ≡ []
unfolding hook_commands
created-hook_commands hook [] = refl
created-hook_commands hook ((iface, state) ∷ rest) = ground (arith, created-hook_commands hook rest)

created-flush_commands : (d : Data) → created (flush_commands d) ≡ []
unfolding flush_commands
created-flush_commands d = ground arith

module _ (float : Float) (sys : System) (clock : Text → ℕ) (d : Data) (s : Shell sys) where
  pub run-SameConfig : SameConfig d (run float sys clock d s).0
  run-SameConfig = subst (SameConfig d) (sym (run_data float sys clock d s)) (
      SameConfig-trans d _ _ (update_paths-SameConfig sys d s)
        (state_changed-SameConfig clock (update_paths sys d s).0))

  cycle_commands : Data → Map Text Text → List Command
  cycle_commands d2 changed =
      if is_empty changed
      then []
      else hook_commands d2.hook changed
        ++ (flush_commands d2 ++ rules_commands float d2 d2.lb_rule_coll)

  created-cycle_commands :
      (d2 : Data) (changed : Map Text Text) (chain : Text)
      → Has chain (created (cycle_commands d2 changed))
      → Has chain (created (rules_commands float d2 d2.lb_rule_coll))
  unfolding cycle_commands
  created-cycle_commands d2 [] chain made = absurd made
  created-cycle_commands d2 (x ∷ changed) chain made =
      subst (Has chain)
        (created-append (hook_commands d2.hook (x ∷ changed)) _
          ∙ ap (λ cs. cs ++ created (flush_commands d2 ++ rules_commands float d2 d2.lb_rule_coll))
              (created-hook_commands d2.hook (x ∷ changed))
          ∙ created-append (flush_commands d2) _
          ∙ ap (λ cs. cs ++ created (rules_commands float d2 d2.lb_rule_coll))
              (created-flush_commands d2))
        made

  -- What a cycle creates is dropped by `shutdown`, given the data that the cycle leaves.
  pub run_creates :
      (chain : Text)
      → Has chain (created (run float sys clock d s).1.log)
      → Has chain (created s.log)
        ⊎ Has chain (dropped (shutdown_commands (run float sys clock d s).0))
  unfolding cycle_commands
  run_creates chain made =
      let (d1, s1) = update_paths sys d s in
      let (changed, d2) = state_changed clock d1 in
      let (data_after, log_after) = log-run float sys clock d s in
      let split =
        subst (Has chain) (ap created log_after ∙ created-append s1.log (cycle_commands d2 changed))
          made in
      elim (Has-split chain (created s1.log) _ split) [
        | inl before ↦ inl (subst (Has chain) (created-update_paths sys d s) before)
        | inr rules ↦
            let made_rules = created-cycle_commands d2 changed chain rules in
            inr (
              subst (λ z. Has chain (dropped (shutdown_commands z))) (sym data_after)
                (Has-dropped chain (shutdown_commands d2) (
                  shutdown_drops float d2 chain (
                    Has-right chain (created (mangle_setup d2)) _
                      (Has-right chain (iface_chains d2 d2.iface_health_coll) _ made_rules)))))
      ]
