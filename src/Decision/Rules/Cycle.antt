-- ===== src/Decision/Rules/Cycle.antt =====
-- What one call of `run` gives to the system, and when it leaves the rules alone.
use vyatta_wanloadbalance.Common.{
  ℕ, ◌≡◌, refl, sym, ◌∙◌, false, List, [], ◌∷◌, ◌++◌, Text, Map, is_empty, Bool-cases, inl, inr,
  if◌then◌else◌,
}
use mathlib.Core.List.{append_assoc, append-nil}
use vyatta_wanloadbalance.Data.{Data}
use vyatta_wanloadbalance.State.{state_changed}
use vyatta_wanloadbalance.Float.{Float}
use vyatta_wanloadbalance.Decision.Shell.{Command, shell, System, Shell}
use vyatta_wanloadbalance.Decision.Shell.Log.{log-execute, log-execute_all}
use vyatta_wanloadbalance.Decision.Paths.{update_paths}
use vyatta_wanloadbalance.Decision.Rules.{flush_commands, rules_commands, run_hooks, run}

-- The hook script once for each interface that has changed, if there is one.
unfoldable pub hook_commands : Text → Map Text Text → List Command
hook_commands hook [] = []
hook_commands hook ((iface, state) ∷ rest) =
    (if is_empty hook then [] else shell hook ∷ []) ++ hook_commands hook rest

module _ (float : Float) (sys : System) where
  log-run_hooks :
      (hook : Text) (changed : Map Text Text) (s : Shell sys)
      → (run_hooks sys hook changed s).log ≡ s.log ++ hook_commands hook changed
  unfolding run_hooks hook_commands
  log-run_hooks hook [] s = sym (append-nil s.log)
  log-run_hooks hook ((iface, state) ∷ rest) s = elim (Bool-cases (is_empty hook)) [
    | inl none_set ↦ rw (none_set, run_hooks) (log-run_hooks hook rest s)
    | inr set ↦
        rw (set, run_hooks)
          (log-run_hooks hook rest _
            ∙ rw (log-execute sys (shell hook) false _)
                (append_assoc s.log (shell hook ∷ []) (hook_commands hook rest)))
  ]

  -- `run` always brings the paths up to date. If no interface is marked as changed it does
  -- nothing else; otherwise it runs the hook for each one that is, flushes the old rules, and
  -- adds the commands of every rule, in the order of their numbers.
  pub log-run :
      (clock : Text → ℕ) (d : Data) (s : Shell sys)
      → let (d1, s1) = update_paths sys d s in
        let (changed, d2) = state_changed clock d1 in
        ((run float sys clock d s).0 ≡ d2)
        × ((run float sys clock d s).1.log
            ≡ s1.log
              ++ (if is_empty changed
                  then []
                  else hook_commands d2.hook changed
                    ++ (flush_commands d2 ++ rules_commands float d2 d2.lb_rule_coll)))
  unfolding run
  log-run clock d s =
      let (d1, s1) = update_paths sys d s in
      let (changed, d2) = state_changed clock d1 in
      elim (Bool-cases (is_empty changed)) [
        | inl quiet ↦ rw quiet (refl, sym (append-nil s1.log))
        | inr moved ↦ rw moved (
          refl,
          log-execute_all sys _ _
              ∙ rw (log-run_hooks d2.hook changed s1)
                  (append_assoc s1.log (hook_commands d2.hook changed) _),
        )
      ]
