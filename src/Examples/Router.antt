-- ===== src/Examples/Router.antt =====
-- The source NAT on a system that keeps a table of its rules.
use vyatta_wanloadbalance.Common.{
  ℕ, ◌+◌, ◌<◌, ◌==◌, ◌≡◌, refl, true, List, [], ◌∷◌, ◌++◌, Option, none, some, Text, lit, arith,
  replicate, text_eq, compare_text, map_values, text_key, if◌then◌else◌,
}
use vyatta_wanloadbalance.Data.{Data, Health}
use vyatta_wanloadbalance.Decision.Shell.{System, Shell, snat_rule, render}
use vyatta_wanloadbalance.Decision.Paths.{
  table_of, default_route, show_routes, fetch_iface_addr, try_addr, update_paths,
}
use vyatta_wanloadbalance.Decision.Paths.Table.{count, remove, status, NatTable, rules_of}
use vyatta_wanloadbalance.Decision.Paths.Table.Moves.{chain}
use vyatta_wanloadbalance.Decision.Paths.Table.Kept.{with_address, update_paths_moves}
use vyatta_wanloadbalance.Decision.Paths.Table.Drift.{updates, update_snat_piles_up}
use vyatta_wanloadbalance.Examples.Fixtures.{eth0, eth1, up, three}

-- What follows a prefix.
strip : Text → Text → Option Text
strip [] t = some t
strip (p ∷ ps) [] = none
strip (p ∷ ps) (c ∷ cs) = if p == c then strip ps cs else none

abbrev delete_answer : Text → List Text → Option (ℕ × Text) × List Text
delete_answer rule rules =
    if count rule rules == 0 then (some (256, []), rules) else (some (0, []), remove rule rules)

found :
    (rule : Text) (rules : List Text)
    → 0 < count rule rules
    → (status (delete_answer rule rules).0 ≡ 0) × ((delete_answer rule rules).1 ≡ remove rule rules)
found rule rules has = ground arith

not_found :
    (rule : Text) (rules : List Text)
    → count rule rules ≡ 0
    → (status (delete_answer rule rules).0 ≡ 256) × ((delete_answer rule rules).1 ≡ rules)
not_found rule rules gone = ground arith

-- A rule is added or deleted, and every other command succeeds without effect.
answer : Text → List Text → Option (ℕ × Text) × List Text
unfolding strip lit
answer text rules = elim (strip (lit "iptables-nft -t nat -A ") text) [
  | some rule ↦ (some (0, []), rules ++ rule ∷ [])
  | none ↦ elim (strip (lit "iptables-nft -t nat -D ") text) [
    | some rule ↦ delete_answer rule rules
    | none ↦ (some (0, []), rules)
  ]
]

abbrev router : System
router = record {
  World = List Text;
  popen = λ text read w. answer text w;
  socket = λ w. (true, w);
  get_addr = λ iface w. (some (lit "10.0.0.1"), w);
  set_hook_env = λ iface state w. w;
  unset_hook_env = λ w. w;
}

router_table : NatTable router
unfolding answer strip lit render snat_rule default_route show_routes
router_table = record {
  table = λ w. w;
  adds = λ mark addr w come. (refl, refl);
  deletes = λ mark addr w has. found (snat_rule mark addr) w has;
  misses = λ mark addr w gone. not_found (snat_rule mark addr) w gone;
  shows = λ number w. refl;
  routes = λ number iface hop w. refl;
  opens = λ w. refl;
  addresses = λ iface w. refl;
}

-- The address that every interface has.
abbrev now : Text → Text
now iface = lit "10.0.0.1"

steady : (iface : Text) (s : Shell router) → (fetch_iface_addr router iface s).0 ≡ now iface
unfolding fetch_iface_addr try_addr
steady iface s = refl

-- Two interfaces, one of which has an older address.
abbrev before : Data
before = record three {
  iface_health_coll = (eth0, record (up 0 eth0) { address = b'9' ∷ [] }) ∷ (eth1, up 1 eth1) ∷ [];
}

abbrev ready : Shell router
ready = record { world = rules_of before.iface_health_coll; log = [] }

update_paths_moves_example :
    ((update_paths router before ready).0.iface_health_coll
      ≡ map_values (with_address now) before.iface_health_coll)
    × ((q : Text)
        → count q (chain router router_table (update_paths router before ready).1)
          ≡ count q (rules_of (update_paths router before ready).0.iface_health_coll) + 0)
unfolding router_table
update_paths_moves_example =
    update_paths_moves router router_table now steady (λ q. 0) before ready refl (λ q. omega arith)

abbrev lost : Health
lost = record (up 0 eth0) { address = b'9' ∷ [] }

-- The table is empty.
abbrev empty : Shell router
empty = record { world = []; log = [] }

update_snat_piles_up_example :
    ((updates router 3 lost (b'7' ∷ []) empty).0 ≡ lost)
    × (chain router router_table (updates router 3 lost (b'7' ∷ []) empty).1
        ≡ [] ++ replicate 3 (snat_rule (table_of lost) (b'7' ∷ [])))
unfolding router_table text_eq compare_text
update_snat_piles_up_example =
    update_snat_piles_up router router_table lost (b'7' ∷ []) refl refl refl 3 empty refl
