-- ===== src/Decision/Teardown/Config.antt =====
-- The chains that `shutdown` drops depend on the configuration, and not on what has happened since.
use mathlib.Core.List.{append_assoc}
use vyatta_wanloadbalance.Common.{
  ◌≡◌, refl, sym, ap, ◌∙◌, inl, inr, Bool, true, false, List, [], ◌∷◌, ◌++◌, Text, Map, ℤ, keys,
  if◌then◌else◌,
}
use vyatta_wanloadbalance.Data.{Data, Health, Rule}
use vyatta_wanloadbalance.Decision.Shell.{
  Command, new_chain, flush_chain, drop_chain, append_rule, insert_rule, delete_rule, add_snat,
  delete_snat, shell,
}
use vyatta_wanloadbalance.Decision.Shell.Log.{Has, Has-left, Has-right}
use vyatta_wanloadbalance.Decision.Setup.{chain_isp, chain_isp_in}
use vyatta_wanloadbalance.Decision.Teardown.{
  limits_teardown, iface_teardown, ifaces_teardown, nat_teardown, chains_teardown,
  shutdown_commands,
}

-- The chains that a command drops, and those of a list of commands.
abbrev pub dropped_by : Command → List Text
dropped_by (new_chain chain) = []
dropped_by (flush_chain chain) = []
dropped_by (drop_chain chain) = chain ∷ []
dropped_by (append_rule chain rule) = []
dropped_by (insert_rule chain rule) = []
dropped_by (delete_rule chain rule) = []
dropped_by (add_snat mark addr) = []
dropped_by (delete_snat mark addr) = []
dropped_by (shell command) = []

abbrev pub dropped : List Command → List Text
dropped [] = []
dropped (command ∷ commands) = dropped_by command ++ dropped commands

pub dropped-append : (xs ys : List Command) → dropped (xs ++ ys) ≡ dropped xs ++ dropped ys
dropped-append [] ys = refl
dropped-append (x ∷ xs) ys =
    ap (λ cs. dropped_by x ++ cs) (dropped-append xs ys)
    ∙ sym (append_assoc (dropped_by x) (dropped xs) (dropped ys))

Has-dropped_by :
    (chain : Text) (command : Command) → drop_chain chain ≡ command → Has chain (dropped_by command)
Has-dropped_by chain (new_chain c) e = cc
Has-dropped_by chain (flush_chain c) e = cc
Has-dropped_by chain (drop_chain c) e = inl cc
Has-dropped_by chain (append_rule c r) e = cc
Has-dropped_by chain (insert_rule c r) e = cc
Has-dropped_by chain (delete_rule c r) e = cc
Has-dropped_by chain (add_snat m a) e = cc
Has-dropped_by chain (delete_snat m a) e = cc
Has-dropped_by chain (shell c) e = cc

pub Has-dropped :
    (chain : Text) (commands : List Command)
    → Has (drop_chain chain) commands
    → Has chain (dropped commands)
Has-dropped chain [] h = absurd h
Has-dropped chain (command ∷ commands) (inl e) =
    Has-left chain (dropped_by command) _ (Has-dropped_by chain command e)
Has-dropped chain (command ∷ commands) (inr h) =
    Has-right chain (dropped_by command) _ (Has-dropped chain commands h)

-- The chains that are dropped for interfaces with these names.
pub iface_drops : Bool → List Text → List Text
iface_drops sticky [] = []
iface_drops sticky (iface ∷ ifaces) =
    chain_isp iface
    ∷ ((if sticky then chain_isp_in iface ∷ [] else []) ++ iface_drops sticky ifaces)

dropped-iface_teardown :
    (sticky : Bool) (iface : Text) (h : Health)
    → dropped (iface_teardown sticky iface h)
      ≡ chain_isp iface ∷ (if sticky then chain_isp_in iface ∷ [] else [])
unfolding iface_teardown
dropped-iface_teardown true iface h = refl
dropped-iface_teardown false iface h = refl

dropped-ifaces_teardown :
    (sticky : Bool) (m : Map Text Health)
    → dropped (ifaces_teardown sticky m) ≡ iface_drops sticky (keys m)
unfolding ifaces_teardown iface_drops
dropped-ifaces_teardown sticky [] = refl
dropped-ifaces_teardown sticky ((iface, h) ∷ rest) =
    dropped-append (iface_teardown sticky iface h) (ifaces_teardown sticky rest)
    ∙ ap (λ cs. cs ++ dropped (ifaces_teardown sticky rest)) (dropped-iface_teardown sticky iface h)
    ∙ ap (λ cs. chain_isp iface ∷ ((if sticky then chain_isp_in iface ∷ [] else []) ++ cs))
        (dropped-ifaces_teardown sticky rest)

-- The parts of the data that the chains depend on.
pub record SameConfig (d d' : Data) : Type 0 where
  pub rules : d'.lb_rule_coll ≡ d.lb_rule_coll
  pub local : d'.enable_local_traffic ≡ d.enable_local_traffic
  pub sticky : d'.sticky_inbound_connections ≡ d.sticky_inbound_connections
  pub ifaces : keys d'.iface_health_coll ≡ keys d.iface_health_coll

pub SameConfig-refl : (d : Data) → SameConfig d d
SameConfig-refl d = record { rules = refl; local = refl; sticky = refl; ifaces = refl }

pub SameConfig-trans : (d e f : Data) → SameConfig d e → SameConfig e f → SameConfig d f
SameConfig-trans d e f p q = record {
  rules = q.rules ∙ p.rules;
  local = q.local ∙ p.local;
  sticky = q.sticky ∙ p.sticky;
  ifaces = q.ifaces ∙ p.ifaces;
}

-- All that `shutdown` drops.
drops : Map ℤ Rule → Bool → Bool → List Text → List Text
drops rules local sticky ifaces =
    dropped (chains_teardown local)
    ++ (dropped (limits_teardown local rules) ++ iface_drops sticky ifaces)

dropped-shutdown_commands :
    (d : Data)
    → dropped (shutdown_commands d)
      ≡ drops d.lb_rule_coll d.enable_local_traffic d.sticky_inbound_connections
          (keys d.iface_health_coll)
unfolding shutdown_commands drops nat_teardown
dropped-shutdown_commands d =
    dropped-append (chains_teardown d.enable_local_traffic) _
    ∙ ap (λ cs. dropped (chains_teardown d.enable_local_traffic) ++ cs)
        (dropped-append (limits_teardown d.enable_local_traffic d.lb_rule_coll) _
          ∙ ap (λ cs. dropped (limits_teardown d.enable_local_traffic d.lb_rule_coll) ++ cs)
              (dropped-ifaces_teardown d.sticky_inbound_connections d.iface_health_coll))

-- With the same configuration, the same chains are dropped.
pub dropped-SameConfig :
    (d d' : Data) → SameConfig d d' → dropped (shutdown_commands d') ≡ dropped (shutdown_commands d)
dropped-SameConfig d d' c = dropped-shutdown_commands d' ∙ same ∙ sym (dropped-shutdown_commands d)
  where
    same :
        drops d'.lb_rule_coll d'.enable_local_traffic d'.sticky_inbound_connections
          (keys d'.iface_health_coll)
        ≡ drops d.lb_rule_coll d.enable_local_traffic d.sticky_inbound_connections
            (keys d.iface_health_coll)
    same = cc (c.rules, c.local, c.sticky, c.ifaces)
