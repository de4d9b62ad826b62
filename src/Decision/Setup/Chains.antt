-- ===== src/Decision/Setup/Chains.antt =====
-- The chains that `init` creates.
use mathlib.Core.List.{append_assoc, append-nil}
use vyatta_wanloadbalance.Common.{
  ◌≡◌, sym, ap, ◌∙◌, false, List, [], ◌∷◌, ◌++◌, Text, Map, arith, Bool-cases, inl, inr,
}
use vyatta_wanloadbalance.Data.{Data, Health}
use vyatta_wanloadbalance.Decision.Shell.{Command, add_snat, System, Shell, execute_all}
use vyatta_wanloadbalance.Decision.Shell.Log.{created, created-append, log-execute, log-execute_all}
use vyatta_wanloadbalance.Decision.Paths.{fetch_iface_addr, table_of}
use vyatta_wanloadbalance.Decision.Setup.{
  nat_setup, mangle_setup, iface_setup, init_iface, init_each, init,
}

-- The chains that `init` creates for the interfaces.
unfoldable pub iface_chains : Data → Map Text Health → List Text
iface_chains d [] = []
iface_chains d ((iface, h) ∷ rest) = created (iface_setup d iface h) ++ iface_chains d rest

created-nat_setup : (d : Data) → created (nat_setup d) ≡ []
unfolding nat_setup
created-nat_setup d = ground arith

module _ (sys : System) where
  pub log-fetch_iface_addr :
      (iface : Text) (s : Shell sys) → (fetch_iface_addr sys iface s).1.log ≡ s.log
  unfolding fetch_iface_addr
  log-fetch_iface_addr iface s = ground arith

  -- Setting an interface up adds its commands to the log, and one for the source address unless
  -- that is disabled.
  created-init_iface :
      (d : Data) (iface : Text) (h : Health) (s : Shell sys)
      → created (init_iface sys d iface h s).1.log
        ≡ created s.log ++ created (iface_setup d iface h)
  unfolding init_iface
  created-init_iface d iface h s = elim (Bool-cases d.disable_source_nat) [
    | inl off ↦ simp off (setup_log ∙ created-append s.log _)
    | inr used ↦ simp used (
        ap created (log-execute sys _ false _ ∙ ap (λ l. l ++ snat) address_log)
        ∙ created-append (s.log ++ iface_setup d iface h) snat
        ∙ append-nil (created (s.log ++ iface_setup d iface h))
        ∙ created-append s.log _)
  ]
    where
      s1 : Shell sys
      s1 = execute_all sys (iface_setup d iface h) s

      snat : List Command
      snat = add_snat (table_of h) (fetch_iface_addr sys iface s1).0 ∷ []

      setup_log : created s1.log ≡ created (s.log ++ iface_setup d iface h)
      setup_log = ap created (log-execute_all sys (iface_setup d iface h) s)

      address_log : (fetch_iface_addr sys iface s1).1.log ≡ s.log ++ iface_setup d iface h
      address_log = log-fetch_iface_addr iface s1 ∙ log-execute_all sys (iface_setup d iface h) s

  created-init_each :
      (d : Data) (m : Map Text Health) (s : Shell sys)
      → created (init_each sys d m s).1.log ≡ created s.log ++ iface_chains d m
  unfolding init_each iface_chains
  created-init_each d [] s = sym (append-nil (created s.log))
  created-init_each d ((iface, h) ∷ rest) s =
      created-init_each d rest (init_iface sys d iface h s).1
      ∙ rw (created-init_iface d iface h s)
          (append_assoc (created s.log) (created (iface_setup d iface h)) (iface_chains d rest))

  -- `init` creates the chain for what passes through, the chain for local traffic if that is
  -- balanced, and the chains of the interfaces, in this order, and no other chain of the mangle
  -- table.
  pub created-init :
      (d : Data) (s : Shell sys)
      → created (init sys d s).1.log
        ≡ created s.log ++ (created (mangle_setup d) ++ iface_chains d d.iface_health_coll)
  unfolding init
  created-init d s =
      ap created (log-execute_all sys _ _)
      ∙ created-append (init_each sys d d.iface_health_coll s1).1.log _
      ∙ append-nil _
      ∙ created-init_each d d.iface_health_coll s1
      ∙ ap (λ cs. cs ++ iface_chains d d.iface_health_coll) base
      ∙ append_assoc (created s.log) (created (mangle_setup d)) _
    where
      s1 : Shell sys
      s1 = execute_all sys (nat_setup d ++ mangle_setup d) s

      base : created s1.log ≡ created s.log ++ created (mangle_setup d)
      base =
          ap created (log-execute_all sys (nat_setup d ++ mangle_setup d) s)
          ∙ created-append s.log _
          ∙ ap (λ cs. created s.log ++ cs)
              (created-append (nat_setup d) _
                ∙ ap (λ cs. cs ++ created (mangle_setup d)) (created-nat_setup d))
