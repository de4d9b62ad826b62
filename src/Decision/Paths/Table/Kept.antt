-- ===== src/Decision/Paths/Table/Kept.antt =====
-- `update_paths` on the table of the source NAT.
use vyatta_wanloadbalance.Common.{
  ℕ, ◌+◌, ◌≡◌, refl, ap, ◌∙◌, Bool, true, false, [], ◌∷◌, Text, Map, arith, map_values, text_key,
  if◌then◌else◌,
}
use vyatta_wanloadbalance.Data.{Data, Health}
use vyatta_wanloadbalance.Decision.Shell.{System, Shell}
use vyatta_wanloadbalance.Decision.Paths.{
  fetch_iface_addr, update_route, update_snat, update_path, update_each, update_paths,
}
use vyatta_wanloadbalance.Decision.Paths.Table.{count, count-append, NatTable, rule_of, rules_of}
use vyatta_wanloadbalance.Decision.Paths.Table.Moves.{
  chain, WithRule, update_snat-WithRule, chain-fetch_iface_addr, chain-update_route,
}

-- An interface once its address is the one that is in use, if it is active.
abbrev pub with_address : (Text → Text) → Text → Health → Health
with_address current iface h = if h.is_active then record h { address = current iface } else h

module _ (sys : System) (nat : NatTable sys) (current : Text → Text)
    (steady : (iface : Text) (s : Shell sys)
      → (fetch_iface_addr sys iface s).0 ≡ current iface) where
  path_moves :
      (other : Text → ℕ) (iface : Text) (h : Health) (s : Shell sys)
      → WithRule sys nat other h (chain sys nat s)
      → let (h', s') = update_path sys false iface h s in
        (h' ≡ with_address current iface h) × WithRule sys nat other h' (chain sys nat s')
  unfolding update_path
  path_moves other iface h s w =
      let (addr, s1) = fetch_iface_addr sys iface s in
      let s2 = update_route sys h s1 in
      let kept = chain-update_route sys nat h s1 ∙ chain-fetch_iface_addr sys nat iface s in
      let (address, rules) =
        update_snat-WithRule sys nat other h addr s2 (λ q. ap (count q) kept ∙ w q) in
      pick h.is_active (update_snat sys h addr s2)
        (address ∙ ap (λ a. record h { address = a }) (steady iface s)) rules
    where
      pick :
          (active : Bool) (r : Health × Shell sys)
          → r.0 ≡ record h { address = current iface }
          → WithRule sys nat other r.0 (chain sys nat r.1)
          → let (h', s') = if◌then◌else◌ {A = Health × Shell sys} active r (h, s) in
            (h' ≡ (if active then record h { address = current iface } else h))
            × WithRule sys nat other h' (chain sys nat s')
      pick true r p q = (p, q)
      pick false r p q = (refl, w)

  each_moves :
      (other : Text → ℕ) (m : Map Text Health) (s : Shell sys)
      → ((q : Text) → count q (chain sys nat s) ≡ count q (rules_of m) + other q)
      → let (m', s') = update_each sys false m s in
        (m' ≡ map_values (with_address current) m)
        × ((q : Text) → count q (chain sys nat s') ≡ count q (rules_of m') + other q)
  unfolding update_each rules_of map_values
  each_moves other [] s w = (refl, w)
  each_moves other ((iface, h) ∷ rest) s w =
      let (h', s1) = update_path sys false iface h s in
      let (address, rules) =
        path_moves (λ q. count q (rules_of rest) + other q) iface h s
          (λ q.
            w q
            ∙ ap (λ n. n + other q) (count-append q (rule_of h) (rules_of rest))
            ∙ omega arith) in
      let (rest', later) =
        each_moves (λ q. count q (rule_of h') + other q) rest s1 (λ q. rules q ∙ omega arith) in
      (
        cc (address, rest'),
        λ q.
            later q
            ∙ omega
                (arith, count-append q (rule_of h') (rules_of (update_each sys false rest s1).0)),
      )

  -- With source NAT on, on a system whose iptables keeps a table of rules, and while the interfaces keep
  -- their addresses: if the table holds the rules of the recorded addresses, besides others, then after
  -- `update_paths` the recorded address of every active interface is the current one, and the table
  -- holds the rules of the recorded addresses again, each as often as there are interfaces for it, and
  -- the same others.
  pub update_paths_moves :
      (other : Text → ℕ) (d : Data) (s : Shell sys)
      → d.disable_source_nat ≡ false
      → ((q : Text) → count q (chain sys nat s) ≡ count q (rules_of d.iface_health_coll) + other q)
      → let (d', s') = update_paths sys d s in
        (d'.iface_health_coll ≡ map_values (with_address current) d.iface_health_coll)
        × ((q : Text)
            → count q (chain sys nat s') ≡ count q (rules_of d'.iface_health_coll) + other q)
  unfolding update_paths
  update_paths_moves other d s on w =
      rw (update_paths, on) (each_moves other d.iface_health_coll s w)
