-- ===== src/Decision/Paths/Snat.antt =====
-- What bringing the paths up to date does to the data and to the source NAT.
use Prim.Native.Nat.{bit_or}
use mathlib.Core.List.{append_assoc, append-nil}
use vyatta_wanloadbalance.Common.{
  ℕ, ◌==◌, ◌≡◌, refl, sym, ap, ◌∙◌, ◌⊎◌, Bool, true, false, List, [], ◌∷◌, ◌++◌, Text, Map, text_eq,
  is_empty, arith, Bool-cases, inl, inr, if◌then◌else◌,
}
use vyatta_wanloadbalance.Data.{Data, Health}
use vyatta_wanloadbalance.Decision.Shell.{Command, add_snat, delete_snat, System, Shell, execute}
use vyatta_wanloadbalance.Decision.Shell.Log.{log-execute}
use vyatta_wanloadbalance.Decision.Paths.{
  table_of, update_snat, update_path, update_each, update_paths,
}

-- The commands that take an interface from its source address to a new one.
unfoldable pub snat_commands : Health → Text → List Command
snat_commands h new_addr =
    if text_eq new_addr h.address
    then []
    else (if is_empty h.address then [] else delete_snat (table_of h) h.address ∷ [])
      ++ (if is_empty new_addr then [] else add_snat (table_of h) new_addr ∷ [])

-- Two collections name the same interfaces in the same order; an interface differs in its address
-- at most, and one that is not active does not differ.
abbrev pub SameButAddress : Map Text Health → Map Text Health → Type 0
SameButAddress [] [] = Unit {0}
SameButAddress [] ((j, h') ∷ m') = ⊥
SameButAddress ((i, h) ∷ m) [] = ⊥
SameButAddress ((i, h) ∷ m) ((j, h') ∷ m') =
    (i ≡ j)
    × (h' ≡ record h { address = h'.address })
    × ((h.is_active ≡ false) → h' ≡ h)
    × SameButAddress m m'

pick : (h h' : Health) (b : Bool) → ((if b then h' else h) ≡ h) ⊎ ((if b then h' else h) ≡ h')
pick h h' true = inr refl
pick h h' false = inl refl

module _ (sys : System) where
  -- Source NAT moves from the recorded address to the new one: nothing is done if they are the
  -- same; otherwise the old rule is deleted if there is an old address, and the new rule is added
  -- if there is a new one, whether or not the commands succeed. Of the interface only the address
  -- may change, to the new one.
  pub log-update_snat :
      (h : Health) (new_addr : Text) (s : Shell sys)
      → ((update_snat sys h new_addr s).1.log ≡ s.log ++ snat_commands h new_addr)
        × (((update_snat sys h new_addr s).0 ≡ h)
            ⊎ ((update_snat sys h new_addr s).0 ≡ record h { address = new_addr }))
  unfolding update_snat snat_commands
  log-update_snat h new_addr s = elim (Bool-cases (text_eq new_addr h.address)) [
    | inl same ↦ rw same (sym (append-nil s.log), inl refl)
    | inr moved ↦ elim (Bool-cases (is_empty h.address)) [
      | inl fresh ↦ elim (Bool-cases (is_empty new_addr)) [
        | inl gone ↦ rw (moved, fresh, gone) (sym (append-nil s.log), inr refl)
        | inr come ↦
            rw (moved, fresh, come)
              (
                log-execute sys _ false s,
                pick h _ (bit_or 0 (execute sys (add_snat (table_of h) new_addr) false s).0 == 0),
              )
      ]
      | inr old ↦ elim (Bool-cases (is_empty new_addr)) [
        | inl gone ↦ rw (moved, old, gone) (log-execute sys _ false s, pick h _ (removed.0 == 0))
        | inr come ↦
            rw (moved, old, come)
              (
                log-execute sys _ false _
                    ∙ ap (λ l. l ++ add_snat (table_of h) new_addr ∷ []) (log-execute sys _ false s)
                    ∙ append_assoc s.log _ _,
                pick h _ (
                    bit_or removed.0
                      (execute sys (add_snat (table_of h) new_addr) false removed.2).0
                    == 0),
              )
      ]
    ]
  ]
    where
      removed : ℕ × Text × Shell sys
      removed = execute sys (delete_snat (table_of h) h.address) false s

  update_path_frame :
      (off : Bool) (iface : Text) (h : Health) (s : Shell sys)
      → ((update_path sys off iface h s).0
          ≡ record h { address = (update_path sys off iface h s).0.address })
        × ((h.is_active ≡ false) → (update_path sys off iface h s).0 ≡ h)
  unfolding update_path update_snat
  update_path_frame off iface h s = ground arith

  update_each_frame :
      (off : Bool) (m : Map Text Health) (s : Shell sys)
      → SameButAddress m (update_each sys off m s).0
  unfolding update_each
  update_each_frame off [] s = tt
  update_each_frame off ((iface, h) ∷ rest) s =
      let frame = update_path_frame off iface h s in
      (refl, frame.0, frame.1, update_each_frame off rest (update_path sys off iface h s).1)

  -- `update_paths` changes no interface but in its address, and none that is not active.
  pub update_paths_frame :
      (d : Data) (s : Shell sys)
      → SameButAddress d.iface_health_coll (update_paths sys d s).0.iface_health_coll
  unfolding update_paths
  update_paths_frame d s = update_each_frame d.disable_source_nat d.iface_health_coll s
