-- ===== src/Decision/Sound.antt =====
-- The decisions keep the data sound.
use mathlib.Core.Path.{subst}
use vyatta_wanloadbalance.Common.{
  ℕ, ◌≡◌, refl, sym, Bool, true, false, [], ◌∷◌, Text, Map, AllValues, AllValues-map_values,
  IsSorted, Above, map_values-IsSorted, text_key, arith, is_empty, Bool-cases, inl, inr,
  if◌then◌else◌,
}
use vyatta_wanloadbalance.Data.{Data, Health}
use vyatta_wanloadbalance.Float.{Float}
use vyatta_wanloadbalance.State.{stamp, state_changed}
use vyatta_wanloadbalance.Factory.Sound.{IsHealth, IsSound}
use vyatta_wanloadbalance.Decision.Shell.{System, Shell}
use vyatta_wanloadbalance.Decision.Paths.{update_paths}
use vyatta_wanloadbalance.Decision.Paths.Snat.{SameButAddress, update_paths_frame}
use vyatta_wanloadbalance.Decision.Setup.{init_iface, init_each, init}
use vyatta_wanloadbalance.Decision.Rules.{run}

-- Two collections name the same interfaces in the same order, and an interface differs in its
-- address at most.
abbrev pub Readdressed : Map Text Health → Map Text Health → Type 0
Readdressed [] [] = Unit {0}
Readdressed [] ((j, h') ∷ m') = ⊥
Readdressed ((i, h) ∷ m) [] = ⊥
Readdressed ((i, h) ∷ m) ((j, h') ∷ m') =
    (i ≡ j) × (h' ≡ record h { address = h'.address }) × Readdressed m m'

readdressed : (m m' : Map Text Health) → SameButAddress m m' → Readdressed m m'
readdressed [] [] s = tt
readdressed [] (x ∷ m') s = absurd s
readdressed ((i, h) ∷ m) [] s = absurd s
readdressed ((i, h) ∷ m) ((j, h') ∷ m') s = (s.0, s.1, readdressed m m' s.3)

Readdressed-Above : (i : Text) (m m' : Map Text Health) → Readdressed m m' → Above i m → Above i m'
Readdressed-Above i [] [] s a = tt
Readdressed-Above i [] (x ∷ m') s a = absurd s
Readdressed-Above i ((k, h) ∷ m) [] s a = absurd s
Readdressed-Above i ((k, h) ∷ m) ((j, h') ∷ m') s a = rw (← s.0) a

Readdressed-IsSorted : (m m' : Map Text Health) → Readdressed m m' → IsSorted m → IsSorted m'
Readdressed-IsSorted [] [] s a = tt
Readdressed-IsSorted [] (x ∷ m') s a = absurd s
Readdressed-IsSorted ((i, h) ∷ m) [] s a = absurd s
Readdressed-IsSorted ((i, h) ∷ m) ((j, h') ∷ m') s a =
    (rw (← s.0) (Readdressed-Above i m m' s.2 a.0), Readdressed-IsSorted m m' s.2 a.1)

Readdressed-AllValues :
    (m m' : Map Text Health) → Readdressed m m' → AllValues IsHealth m → AllValues IsHealth m'
Readdressed-AllValues [] [] s a = tt
Readdressed-AllValues [] (x ∷ m') s a = absurd s
Readdressed-AllValues ((i, h) ∷ m) [] s a = absurd s
Readdressed-AllValues ((i, h) ∷ m) ((j, h') ∷ m') s a =
    (subst IsHealth (sym s.1) a.0, Readdressed-AllValues m m' s.2 a.1)

Readdressed-IsSound :
    (d : Data) (m' : Map Text Health)
    → Readdressed d.iface_health_coll m'
    → IsSound d
    → IsSound (record d { iface_health_coll = m' })
Readdressed-IsSound d m' same s = record {
  rules_in_order = s.rules_in_order;
  rules = s.rules;
  ifaces_in_order = Readdressed-IsSorted d.iface_health_coll m' same s.ifaces_in_order;
  ifaces = Readdressed-AllValues d.iface_health_coll m' same s.ifaces;
}

module _ (sys : System) where
  pub update_paths-Readdressed :
      (d : Data) (s : Shell sys)
      → Readdressed d.iface_health_coll (update_paths sys d s).0.iface_health_coll
  update_paths-Readdressed d s = readdressed d.iface_health_coll _ (update_paths_frame sys d s)

  pub update_paths-IsSound :
      (d : Data) (s : Shell sys) → IsSound d → IsSound (update_paths sys d s).0
  unfolding update_paths
  update_paths-IsSound d s =
      Readdressed-IsSound d (update_paths sys d s).0.iface_health_coll
        (update_paths-Readdressed d s)

  init_iface-readdressed :
      (d : Data) (iface : Text) (h : Health) (s : Shell sys)
      → (init_iface sys d iface h s).0
        ≡ record h { address = (init_iface sys d iface h s).0.address }
  unfolding init_iface
  init_iface-readdressed d iface h s = ground arith

  init_each-Readdressed :
      (d : Data) (m : Map Text Health) (s : Shell sys) → Readdressed m (init_each sys d m s).0
  unfolding init_each
  init_each-Readdressed d [] s = tt
  init_each-Readdressed d ((iface, h) ∷ rest) s =
      (refl, init_iface-readdressed d iface h s, init_each-Readdressed d rest _)

  pub init-Readdressed :
      (d : Data) (s : Shell sys)
      → Readdressed d.iface_health_coll (init sys d s).0.iface_health_coll
  unfolding init
  init-Readdressed d s = init_each-Readdressed d d.iface_health_coll _

  pub init-IsSound : (d : Data) (s : Shell sys) → IsSound d → IsSound (init sys d s).0
  unfolding init
  init-IsSound d s = Readdressed-IsSound d (init sys d s).0.iface_health_coll (init-Readdressed d s)

stamp-IsHealth :
    (clock : Text → ℕ) (iface : Text) (h : Health) → IsHealth h → IsHealth (stamp clock iface h)
unfolding stamp
stamp-IsHealth clock iface h k =
    elim h.state_changed
      as (λ (b : Bool).
        IsHealth (if b then record h { last_time_state_changed = clock iface } else h)) [
          | true ↦ k
          | false ↦ k
        ]

state_changed-IsSound :
    (clock : Text → ℕ) (d : Data) → IsSound d → IsSound (state_changed clock d).1
unfolding state_changed
state_changed-IsSound clock d s = record {
  rules_in_order = s.rules_in_order;
  rules = s.rules;
  ifaces_in_order = map_values-IsSorted (stamp clock) d.iface_health_coll s.ifaces_in_order;
  ifaces =
      AllValues-map_values IsHealth IsHealth (stamp clock) d.iface_health_coll
        (stamp-IsHealth clock) s.ifaces;
}

module _ (float : Float) (sys : System) where
  pub run_data :
      (clock : Text → ℕ) (d : Data) (s : Shell sys)
      → (run float sys clock d s).0 ≡ (state_changed clock (update_paths sys d s).0).1
  unfolding run
  run_data clock d s =
      let d1 = (update_paths sys d s).0 in
      elim (Bool-cases (is_empty (state_changed clock d1).0)) [
        | inl quiet ↦ rw quiet refl
        | inr moved ↦ rw moved refl
      ]

  pub run-IsSound :
      (clock : Text → ℕ) (d : Data) (s : Shell sys)
      → IsSound d
      → IsSound (run float sys clock d s).0
  run-IsSound clock d s k =
      rw (run_data clock d s) (state_changed-IsSound clock _ (update_paths-IsSound sys d s k))
