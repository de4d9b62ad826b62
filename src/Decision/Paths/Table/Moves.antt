-- ===== src/Decision/Paths/Table/Moves.antt =====
-- What the commands of one interface do to the table of the source NAT.
use mathlib.Core.List.{append-nil}
use vyatta_wanloadbalance.Common.{
  ℕ, zero, suc, ◌+◌, ◌<◌, ◌≡◌, refl, sym, ap, ◌∙◌, Bool, true, false, List, [], ◌∷◌, ◌++◌, not,
  ◌&&◌, Option, none, some, Text, text_eq, text_eq_iff, text_eq_refl, is_empty, arith, Bool-cases,
  take, inl, inr, if◌then◌else◌,
}
use vyatta_wanloadbalance.Data.{Health}
use vyatta_wanloadbalance.Decision.Shell.{
  Command, add_snat, delete_snat, snat_rule, System, Shell, execute, render,
}
use vyatta_wanloadbalance.Decision.Paths.{
  table_of, default_route, show_routes, contains, insert_default, fetch_iface_addr, try_addr,
  update_route, update_snat,
}
use vyatta_wanloadbalance.Decision.Paths.Table.{
  count, remove, count-append, count-remove, status, NatTable, rule_of,
}

module _ (sys : System) (nat : NatTable sys) where
  open nat use {table, adds, deletes, misses, shows, routes, opens, addresses}

  abbrev pub chain : Shell sys → List Text
  chain s = table s.world

  pub executed :
      (command : Command) (read : Bool) (s : Shell sys)
      → ((execute sys command read s).0 ≡ status (sys.popen (render command) read s.world).0)
        × ((execute sys command read s).2.world ≡ (sys.popen (render command) read s.world).1)
  unfolding execute
  executed command read s = (ground arith, ground arith)

  -- The commands of `update_snat` on the table.
  pub added :
      (mark addr : Text) (s : Shell sys)
      → is_empty addr ≡ false
      → let (err, _, s') = execute sys (add_snat mark addr) false s in
        (err ≡ 0) × (chain s' ≡ chain s ++ snat_rule mark addr ∷ [])
  added mark addr s come =
      let (st, w) = executed (add_snat mark addr) false s in
      let law = adds mark addr s.world come in (st ∙ law.0, ap table w ∙ law.1)

  pub deleted :
      (mark addr : Text) (s : Shell sys)
      → 0 < count (snat_rule mark addr) (chain s)
      → let (err, _, s') = execute sys (delete_snat mark addr) false s in
        (err ≡ 0) × (chain s' ≡ remove (snat_rule mark addr) (chain s))
  deleted mark addr s has =
      let (st, w) = executed (delete_snat mark addr) false s in
      let law = deletes mark addr s.world has in (st ∙ law.0, ap table w ∙ law.1)

  pub missed :
      (mark addr : Text) (s : Shell sys)
      → count (snat_rule mark addr) (chain s) ≡ 0
      → let (err, _, s') = execute sys (delete_snat mark addr) false s in
        (err ≡ 256) × (chain s' ≡ chain s)
  missed mark addr s gone =
      let (st, w) = executed (delete_snat mark addr) false s in
      let law = misses mark addr s.world gone in (st ∙ law.0, ap table w ∙ law.1)

  -- The table once the rule of an interface is one with a new address.
  abbrev moved_table : Health → Text → List Text → List Text
  moved_table h addr rules =
      if text_eq addr h.address
      then rules
      else (if is_empty h.address then rules else remove (snat_rule (table_of h) h.address) rules)
        ++ (if is_empty addr then [] else snat_rule (table_of h) addr ∷ [])

  update_snat_moves :
      (h : Health) (addr : Text) (s : Shell sys)
      → (is_empty h.address ≡ false → 0 < count (snat_rule (table_of h) h.address) (chain s))
      → let (h', s') = update_snat sys h addr s in
        (h' ≡ record h { address = addr }) × (chain s' ≡ moved_table h addr (chain s))
  unfolding update_snat
  update_snat_moves h addr s known = elim (Bool-cases (text_eq addr h.address)) [
    | inl same ↦
        rw (update_snat, same)
          (ap (λ a. record h { address = a }) (sym ((text_eq_iff addr h.address).0 same)), refl)
    | inr moved ↦ elim (Bool-cases (is_empty h.address)) [
      | inl fresh ↦ elim (Bool-cases (is_empty addr)) [
        | inl gone ↦ rw (update_snat, moved, fresh, gone) (refl, sym (append-nil (chain s)))
        | inr come ↦
            let (ok, after) = added (table_of h) addr s come in
            rw (update_snat, moved, fresh, come, ok) (refl, after)
      ]
      | inr old ↦
          let (ok, after) = deleted (table_of h) h.address s (known old) in
          let s1 = (execute sys (delete_snat (table_of h) h.address) false s).2 in
          elim (Bool-cases (is_empty addr)) [
            | inl gone ↦ rw (update_snat, moved, old, gone, ok) (refl, after ∙ sym (append-nil _))
            | inr come ↦
                let (ok2, after2) = added (table_of h) addr s1 come in
                rw (update_snat, moved, old, come, ok, ok2)
                  (refl, after2 ∙ ap (λ t. t ++ snat_rule (table_of h) addr ∷ []) after)
          ]
    ]
  ]

  -- The table holds the rule of an interface, and as many others as `other` says.
  abbrev pub WithRule : (Text → ℕ) → Health → List Text → Type 0
  WithRule other h rules = (q : Text) → count q rules ≡ count q (rule_of h) + other q

  known :
      (other : Text → ℕ) (h : Health) (rules : List Text)
      → WithRule other h rules
      → is_empty h.address ≡ false
      → 0 < count (snat_rule (table_of h) h.address) rules
  unfolding rule_of
  known other h rules w old =
      let there =
        rw (rule_of, old, text_eq_refl (snat_rule (table_of h) h.address)) at
          (w (snat_rule (table_of h) h.address)) in
      omega (there, arith)

  moved-WithRule :
      (other : Text → ℕ) (h : Health) (addr : Text) (rules : List Text)
      → WithRule other h rules
      → WithRule other (record h { address = addr }) (moved_table h addr rules)
  unfolding rule_of table_of
  moved-WithRule other h addr rules w q = elim (Bool-cases (text_eq addr h.address)) [
    | inl same ↦ rw (same, (text_eq_iff addr h.address).0 same) (w q)
    | inr moved ↦ rw moved (
        count-append q
          (if is_empty h.address then rules else remove (snat_rule (table_of h) h.address) rules) _
        ∙ ap (λ n. n + count q (rule_of (record h { address = addr }))) without
        ∙ omega arith)
  ]
    where
      without :
          count q
            (if is_empty h.address then rules else remove (snat_rule (table_of h) h.address) rules)
          ≡ other q
      without = elim (Bool-cases (is_empty h.address)) [
        | inl fresh ↦ rw fresh (omega (rw (rule_of, fresh) at (w q), arith))
        | inr old ↦
            let less =
              count-remove q (snat_rule (table_of h) h.address) rules (known other h rules w old) in
            let whole = rw (rule_of, old) at (w q) in rw old (omega (less, whole, arith))
      ]

  -- `update_snat` replaces the rule of the interface and leaves the others.
  pub update_snat-WithRule :
      (other : Text → ℕ) (h : Health) (addr : Text) (s : Shell sys)
      → WithRule other h (chain s)
      → let (h', s') = update_snat sys h addr s in
        (h' ≡ record h { address = addr }) × WithRule other h' (chain s')
  update_snat-WithRule other h addr s w =
      let (address, rules) = update_snat_moves h addr s (known other h (chain s) w) in
      (
        address,
        λ q.
            ap (count q) rules
            ∙ moved-WithRule other h addr (chain s) w q
            ∙ ap (λ z. count q (rule_of z) + other q) (sym address),
      )

  table-try_addr :
      (n : ℕ) (iface : Text) (w : sys.World) → table (try_addr sys n iface w).1 ≡ table w
  unfolding try_addr
  table-try_addr zero iface w = refl
  table-try_addr (suc n) iface w =
      go (sys.get_addr (take 16 iface) w) (addresses (take 16 iface) w) (table-try_addr n iface _)
    where
      go :
          (r : Option Text × sys.World)
          → table r.1 ≡ table w
          → table (try_addr sys n iface r.1).1 ≡ table r.1
          → table
              (elim r.0 as (λ (o : Option Text). Text × sys.World) [
                | none ↦ try_addr sys n iface r.1
                | some addr ↦ (addr, r.1)
              ]).1
            ≡ table w
      go (none, w') same again = again ∙ same
      go (some addr, w') same again = same

  pub chain-fetch_iface_addr :
      (iface : Text) (s : Shell sys) → chain (fetch_iface_addr sys iface s).1 ≡ chain s
  unfolding fetch_iface_addr
  chain-fetch_iface_addr iface s = elim (Bool-cases (sys.socket s.world).0) [
    | inl opened ↦
        rw (fetch_iface_addr, opened)
          (table-try_addr 2 iface (sys.socket s.world).1 ∙ opens s.world)
    | inr failed ↦ rw (fetch_iface_addr, failed) (opens s.world)
  ]

  chain-insert_default :
      (h : Health) (hop : Text) (s : Shell sys) → chain (insert_default sys h hop s) ≡ chain s
  unfolding insert_default
  chain-insert_default h hop s =
      let (_, output, s1) = execute sys (show_routes (table_of h)) true s in
      let replace = default_route (table_of h) h.interface hop in
      let shown =
        ap table (executed (show_routes (table_of h)) true s).1 ∙ shows (table_of h) s.world in
      let put =
        ap table (executed replace false s1).1 ∙ routes (table_of h) h.interface hop s1.world in
      same (not (is_empty output) && (contains hop output && contains h.interface output)) s1
        (execute sys replace false s1).2 shown (put ∙ shown)
    where
      same :
          (b : Bool) (s1 s2 : Shell sys)
          → chain s1 ≡ chain s
          → chain s2 ≡ chain s
          → chain (if b then s1 else s2) ≡ chain s
      same true s1 s2 p q = p
      same false s1 s2 p q = q

  pub chain-update_route : (h : Health) (s : Shell sys) → chain (update_route sys h s) ≡ chain s
  unfolding update_route
  chain-update_route h s =
      ground (arith, chain-insert_default h h.dhcp_nexthop s, chain-insert_default h h.nexthop s)
