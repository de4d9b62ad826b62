-- ===== src/Decision/Paths.antt =====
-- src/lbdecision.cc: `LBDecision::update_paths` with `insert_default` and `fetch_iface_addr`: the
-- route and the source address of each active interface.
pub mod Snat
pub mod Table
use Prim.Native.Nat.{bit_or}
use vyatta_wanloadbalance.Common.{
  ℕ, zero, suc, ◌+◌, ◌==◌, Bool, true, false, not, ◌&&◌, ◌||◌, List, [], ◌∷◌, ◌++◌, Option, none,
  some, Text, Map, lit, is_empty, text_eq, decimal, take, if◌then◌else◌,
}
use vyatta_wanloadbalance.Data.{Data, Health}
use vyatta_wanloadbalance.Decision.Shell.{
  Command, shell, add_snat, delete_snat, System, Shell, execute,
}

-- IPT_MARK_OFFSET.
abbrev pub mark_offset : ℕ
mark_offset = 0xc8

-- The number of an interface's table and mark, as `sprintf("%d")` prints it.
unfoldable pub table_of : Health → Text
table_of h = decimal (h.interface_index + mark_offset)

unfoldable pub starts_with : Text → Text → Bool
starts_with [] t = true
starts_with (p ∷ ps) [] = false
starts_with (p ∷ ps) (c ∷ cs) = p == c && starts_with ps cs

-- `text.find(piece) != string::npos`.
unfoldable pub contains : Text → Text → Bool
unfolding starts_with
contains piece [] = is_empty piece
contains piece (c ∷ cs) = starts_with piece (c ∷ cs) || contains piece cs

unfoldable pub default_route : Text → Text → Text → Command
default_route table iface hop = shell (
    lit "ip route replace table "
    ++ (table ++ (lit " default dev " ++ (iface ++ (lit " via " ++ hop)))))

unfoldable pub show_routes : Text → Command
show_routes table = shell (lit "ip route show table " ++ table)

module _ (sys : System) where
  open sys use {World, socket, get_addr}

  -- `LBDecision::insert_default`. What it logs about a failure is left out.
  unfoldable pub insert_default : Health → Text → Shell sys → Shell sys
  unfolding execute contains default_route show_routes table_of
  insert_default h nexthop s =
      let (_, output, s1) = execute sys (show_routes (table_of h)) true s in
      if not (is_empty output) && (contains nexthop output && contains h.interface output)
      then s1
      else (execute sys (default_route (table_of h) h.interface nexthop) false s1).2

  -- The attempts that are left to read an address. `ifr_name` holds 16 bytes.
  unfoldable pub try_addr : ℕ → Text → World → Text × World
  try_addr zero iface w = ([], w)
  try_addr (suc ct) iface w =
      let (answer, w') = get_addr (take 16 iface) w in
      elim answer [ none ↦ try_addr ct iface w' | some addr ↦ (addr, w') ]

  -- `LBDecision::fetch_iface_addr`.
  unfoldable pub fetch_iface_addr : Text → Shell sys → Text × Shell sys
  unfolding try_addr
  fetch_iface_addr iface s =
      let (opened, w) = socket s.world in
      let (addr, w') = try_addr 2 iface w in
      if opened then (addr, record s { world = w' }) else ([], record s { world = w })

  -- The next hop goes into the route table, unless it is one that DHCP has yet to give.
  unfoldable pub update_route : Health → Shell sys → Shell sys
  unfolding insert_default
  update_route h s =
      if text_eq h.nexthop (lit "dhcp")
      then if is_empty h.dhcp_nexthop then s else insert_default h h.dhcp_nexthop s
      else insert_default h h.nexthop s

  -- The new address replaces the old one in the source NAT; the old one is forgotten only if every
  -- command has succeeded.
  unfoldable pub update_snat : Health → Text → Shell sys → Health × Shell sys
  unfolding execute table_of
  update_snat h new_addr s =
      if text_eq new_addr h.address
      then (h, s)
      else let (err, _, s1) = execute sys (delete_snat (table_of h) h.address) false s in
        let removed : ℕ × Shell sys = if is_empty h.address then (0, s) else (err, s1) in
        let (err2, _, s2) = execute sys (add_snat (table_of h) new_addr) false removed.1 in
        let added : ℕ × Shell sys =
          if is_empty new_addr then removed else (bit_or removed.0 err2, s2) in
        (if added.0 == 0 then record h { address = new_addr } else h, added.1)

  -- One round of the loop.
  unfoldable pub update_path : Bool → Text → Health → Shell sys → Health × Shell sys
  unfolding fetch_iface_addr update_route update_snat
  update_path disable_source_nat iface h s =
      let (new_addr, s1) = fetch_iface_addr iface s in
      let s2 = update_route h s1 in
      if h.is_active
      then if disable_source_nat then (h, s2) else update_snat h new_addr s2
      else (h, s)

  unfoldable pub update_each : Bool → Map Text Health → Shell sys → Map Text Health × Shell sys
  unfolding update_path
  update_each off [] s = ([], s)
  update_each off ((iface, h) ∷ rest) s =
      let (h', s1) = update_path off iface h s in
      let (rest', s2) = update_each off rest s1 in ((iface, h') ∷ rest', s2)

  -- `LBDecision::update_paths`.
  unfoldable pub update_paths : Data → Shell sys → Data × Shell sys
  unfolding update_each
  update_paths d s =
      let (coll, s') = update_each d.disable_source_nat d.iface_health_coll s in
      (record d { iface_health_coll = coll }, s')
