-- ===== src/State/Lease.antt =====
-- src/lbdata.cc: `LBData::update_dhcp_nexthop`, which reads the next hops that the DHCP client and
-- the PPP scripts leave in files.
use vyatta_wanloadbalance.Common.{
  ℕ, ◌-◌, ◌==◌, ◌||◌, List, [], ◌∷◌, ◌++◌, Option, none, some, Text, Map, lit, text_eq,
  if◌then◌else◌, length, take,
}
use vyatta_wanloadbalance.Data.{Data, Health}
use vyatta_wanloadbalance.StrProc.{str_proc, get}

unfoldable pub prepend : ℕ → List Text → List Text
prepend c [] = (c ∷ []) ∷ []
prepend c (l ∷ ls) = (c ∷ l) ∷ ls

-- What successive calls of `fgets(str, 1024, fp)` return: each ends behind a line feed or after 1023
-- bytes. The first argument is the room left for the current one.
unfoldable pub fgets_from : ℕ → Text → List Text
unfolding prepend
fgets_from room [] = []
fgets_from room (c ∷ cs) =
    let full = c == 10 || room == 1 in
    let rest = fgets_from (if full then 1023 else room - 1) cs in
    if full then (c ∷ []) ∷ rest else prepend c rest

-- A C string ends at its first NUL.
unfoldable pub c_string : Text → Text
c_string [] = []
c_string (c ∷ cs) = if c == 0 then [] else c ∷ c_string cs

unfoldable pub c_strings : List Text → List Text
unfolding c_string
c_strings [] = []
c_strings (l ∷ ls) = c_string l ∷ c_strings ls

unfoldable pub fgets_lines : Text → List Text
unfolding fgets_from c_strings
fgets_lines content = c_strings (fgets_from 1023 content)

-- `tmp.substr(1, tmp.length() - 2)`: the text without its first and last byte. Of the empty text
-- `substr` throws `std::out_of_range`, which nothing catches.
unfoldable pub unquote : Text → Option Text
unquote [] = none
unquote (c ∷ cs) = some (take (length cs - 1) cs)

-- What reading a lease file does to the next hop.
pub data LeaseResult : Type 0 where
  uncaught : LeaseResult
  unchanged : LeaseResult
  router : Text → LeaseResult

abbrev pub of_unquote : Option Text → LeaseResult
of_unquote none = uncaught
of_unquote (some t) = router t

-- The loop over the lines of a lease file, up to the first `new_routers` line. Of several routers it
-- takes the first.
unfoldable pub read_lease : List Text → LeaseResult
unfolding lit unquote
read_lease [] = unchanged
read_lease (line ∷ lines) =
    let tokens = str_proc line b'=' in
    let rest = read_lease lines in
    if text_eq (get tokens 0) (lit "new_routers")
    then of_unquote (unquote (get (str_proc (get tokens 1) 32) 0))
    else rest

-- The files that can be opened, by their paths, with their content.
abbrev pub Files : Type 0
Files = Text → Option Text

abbrev pub lease_file : Text → Text
lease_file iface = lit "/run/dhclient/dhclient_" ++ iface ++ lit ".lease"

abbrev pub ppp_file : Text → Text
ppp_file iface = lit "/var/run/load-balance/ppp/" ++ iface

-- The PPP file's first line is the next hop.
unfoldable pub read_ppp : Option Text → LeaseResult
read_ppp none = unchanged
read_ppp (some content) = elim (fgets_lines content) [ [] ↦ unchanged | line ∷ _ ↦ router line ]

-- The lease file of an interface, or its PPP file if there is no lease file.
unfoldable pub lease_of : Files → Text → LeaseResult
unfolding read_ppp
lease_of files iface = elim (files (lease_file iface)) [
  | none ↦ read_ppp (files (ppp_file iface))
  | some content ↦ read_lease (fgets_lines content)
]

-- `none` is where the exception ends the daemon.
unfoldable pub store_hop : LeaseResult → Health → Option Health
store_hop uncaught h = none
store_hop unchanged h = some h
store_hop (router hop) h = some (record h { dhcp_nexthop = hop })

-- One round of the loop.
unfoldable pub update_nexthop : Files → Text → Health → Option Health
update_nexthop files iface h =
    if text_eq h.nexthop (lit "dhcp") then store_hop (lease_of files iface) h else some h

unfoldable pub update_all : Files → Map Text Health → Option (Map Text Health)
unfolding update_nexthop
update_all files [] = some []
update_all files ((iface, h) ∷ rest) =
    let later = update_all files rest in
    elim (update_nexthop files iface h) [
      | none ↦ none
      | some h' ↦ elim later [ none ↦ none | some rest' ↦ some ((iface, h') ∷ rest') ]
    ]

unfoldable pub update_dhcp_nexthop : Files → Data → Option Data
unfolding update_all
update_dhcp_nexthop files d = elim (update_all files d.iface_health_coll) [
  | none ↦ none
  | some coll ↦ some (record d { iface_health_coll = coll })
]
