-- ===== src/Probe/Icmp.antt =====
-- src/lbtest_icmp.cc: `LBTestICMP`, an echo request through the interface.
pub mod Request
use vyatta_wanloadbalance.Common.{
  ℕ, ◌+◌, ◌%◌, Bool, true, false, ◌||◌, [], ◌∷◌, ◌++◌, none, some, Text, pos, minus_one, lit,
  is_empty, text_eq, insert, decimal, ℤ, negsuc, ◌^◌, ◌-◌, Bytes, le16, le32, le64, htons, write_at,
  int_key, if◌then◌else◌,
}
use vyatta_wanloadbalance.Data.{Health, Test}
use vyatta_wanloadbalance.Probe.{Engine, PktData, Host}
use vyatta_wanloadbalance.Probe.Checksum.{icmp_checksum}

-- The host that a test sends to.
unfoldable pub target_of : Health → Test → Text
target_of h t =
    if is_empty t.target
    then if text_eq h.nexthop (lit "dhcp") then h.dhcp_nexthop else h.nexthop
    else t.target

-- The line that the show command prints.
unfoldable pub with_status : Text → Health → Test → Test
unfolding target_of
with_status name h t = record t { status_line = name ++ 9 ∷ (lit "Target: " ++ target_of h t) }

-- The 40 bytes of the request, up to the last write of a zero to its checksum. Later writes cover a
-- part of the earlier ones, and what is not written is what the stack held.
unfoldable pub icmp_fields : Bytes → ℕ → ℕ × ℕ → ℕ → Bytes
icmp_fields stack pid (sec, usec) packet_id = write_at 6 (le16 1) (
    write_at 18 (le16 40) (
      write_at 16 (le32 packet_id) (
        write_at 12 (le64 usec) (
          write_at 8 (le64 sec) (
            write_at 6 (le16 0) (
              write_at 4 (le16 (htons pid))
                (write_at 2 (le16 0) (write_at 0 (8 ∷ 0 ∷ []) stack))))))))

unfoldable pub icmp_packet : Bytes → ℕ → ℕ × ℕ → ℕ → Bytes
icmp_packet stack pid now packet_id =
    let body = write_at 2 (le16 0) (icmp_fields stack pid now packet_id) in
    write_at 2 (le16 (icmp_checksum body 20)) body

-- `_packet_id` of the next request.
unfoldable pub next_icmp_id : ℕ → ℕ
next_icmp_id id = (id + 1) % 32767

module _ (host : Host) where
  open host use {World, time, getpid, stack, gethostbyname, bind_device, sendto}

  -- `LBTestICMP::send(int, ...)`. A request that cannot be sent is left to time out.
  unfoldable pub send_icmp : Engine → Text → Text → ℕ → World → World
  send_icmp e iface target packet_id w =
      let (address, w1) = gethostbyname target w in
      if is_empty iface || is_empty target then w else elim address [
        | none ↦ w1
        | some addr ↦
            let (bound, w2) = bind_device e.send_icmp_sock iface w1 in
            let packet = icmp_packet (stack 40 w2) (getpid w2) (time w2) packet_id in
            if bound then sendto e.send_icmp_sock packet addr 0 w2 else w2
      ]

  -- `LBTestICMP::send(LBHealth &)`.
  unfoldable pub send_ping : Health → Test → Engine → World → Test × Engine × World
  unfolding target_of with_status next_icmp_id
  send_ping h t e w =
      let id = next_icmp_id e.packet_id in
      let target = target_of h t in
      let sent : PktData = record { iface = h.interface; rtt = minus_one } in
      let e' = record e { packet_id = id; results = insert (pos id) sent e.results } in
      if is_empty target
      then (with_status (lit "ping") h t, e, w)
      else (with_status (lit "ping") h t, e', send_icmp e h.interface target id w)

-- `%u` of an `int`.
unfoldable pub print_unsigned : ℤ → Text
print_unsigned (pos n) = decimal n
print_unsigned (negsuc n) = decimal (2 ^ 32 - n - 1)

-- `LBTestICMP::dump`.
unfoldable pub dump_ping : Test → Text
unfolding print_unsigned
dump_ping t = lit "target: " ++ (t.target ++ (lit ", resp_time: " ++ print_unsigned t.resp_time))
