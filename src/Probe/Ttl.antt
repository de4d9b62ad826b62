-- ===== src/Probe/Ttl.antt =====
-- src/lbtest_ttl.hh and src/lbtest_ttl.cc: `LBTestTTL`, a datagram that a router on the way drops.
pub mod Datagram
pub mod Header
pub mod Exceeded
use vyatta_wanloadbalance.Common.{
  ℕ, ◌+◌, ◌%◌, ◌^◌, Bool, true, false, ◌||◌, [], ◌∷◌, ◌++◌, none, some, Text, pos, minus_one, lit,
  is_empty, leb, insert, decimal, Bytes, le16, le32, htons, write_at, take, drop, int_key,
  if◌then◌else◌,
}
use vyatta_wanloadbalance.Data.{Health, Test}
use vyatta_wanloadbalance.Probe.{Engine, PktData, Host}
use vyatta_wanloadbalance.Probe.Checksum.{ip_checksum, udp_checksum}
use vyatta_wanloadbalance.Probe.Icmp.{target_of, with_status, print_unsigned}

-- `_min_port_id` and `_max_port_id`.
abbrev pub min_port_id : ℕ
min_port_id = 32767

abbrev pub max_port_id : ℕ
max_port_id = 55000

-- `LBTestTTL::get_new_packet_id`: it becomes `_packet_id`, which is an `unsigned short` here.
unfoldable pub get_new_packet_id : ℕ → ℕ
get_new_packet_id id = ((if leb max_port_id id then min_port_id else id) + 1) % 2 ^ 16

-- The IP header with its checksum at zero. The total length is written in the order of the machine.
unfoldable pub ip_body : Bytes → ℕ → ℕ → ℕ → ℕ → Bytes
ip_body stack pid ttl saddr daddr = write_at 16 (le32 daddr) (
    write_at 12 (le32 saddr) (
      write_at 10 (le16 0) (
        write_at 8 (ttl % 256 ∷ 17 ∷ []) (
          write_at 6 (le16 0) (
            write_at 4 (le16 (htons pid))
              (write_at 2 (le16 28) (write_at 0 (69 ∷ 0 ∷ []) stack)))))))

unfoldable pub ip_packet : Bytes → ℕ → ℕ → ℕ → ℕ → Bytes
unfolding ip_body
ip_packet stack pid ttl saddr daddr =
    let body = ip_body stack pid ttl saddr daddr in
    write_at 10 (le16 (ip_checksum (take 20 body))) body

-- The UDP header behind it, with its checksum at zero: both ports are the id of the packet.
unfoldable pub udp_body : Bytes → ℕ → Bytes
udp_body packet packet_id = write_at 26 (le16 0) (
    write_at 24 (le16 8)
      (write_at 22 (le16 (htons packet_id)) (write_at 20 (le16 (htons packet_id)) packet)))

-- The packet of 42 bytes, of which 36 are sent: both headers and eight bytes of data.
unfoldable pub ttl_packet : Bytes → ℕ → ℕ → ℕ → ℕ → ℕ → Bytes
unfolding ip_packet udp_body
ttl_packet stack pid ttl saddr daddr packet_id =
    let body = udp_body (ip_packet stack pid ttl saddr daddr) packet_id in
    write_at 26 (le16 (udp_checksum 17 (take 16 (drop 20 body)) saddr daddr)) body

module _ (host : Host) where
  open host use {World, getpid, stack, gethostbyname, inet_addr, bind_device, sendto}

  -- `LBTestTTL::send(int, ...)`, which does not use the port that is configured.
  unfoldable pub send_ttl : Engine → Text → Text → ℕ → Text → ℕ → World → World
  send_ttl e iface target packet_id saddress ttl w =
      let (address, w1) = gethostbyname target w in
      if is_empty saddress || (is_empty iface || is_empty target) then w else elim address [
        | none ↦ w1
        | some addr ↦
            let (bound, w2) = bind_device e.send_raw_sock iface w1 in
            let packet =
              ttl_packet (stack 42 w2) (getpid w2) ttl (inet_addr saddress) addr packet_id in
            if bound then sendto e.send_raw_sock (take 36 packet) addr packet_id w2 else w2
      ]

  -- `LBTestTTL::send(LBHealth &)`.
  unfoldable pub send_udp : ℕ → Health → Test → Engine → World → Test × Engine × World
  unfolding target_of with_status get_new_packet_id
  send_udp ttl h t e w =
      let id = get_new_packet_id e.packet_id in
      let target = target_of h t in
      let sent : PktData = record { iface = h.interface; rtt = minus_one } in
      let e' = record e { packet_id = id; results = insert (pos id) sent e.results } in
      if is_empty target
      then (with_status (lit "ttl") h t, e, w)
      else (with_status (lit "ttl") h t, e', send_ttl e h.interface target id h.address ttl w)

-- `LBTestTTL::dump`.
unfoldable pub dump_ttl : ℕ → ℕ → Test → Text
dump_ttl ttl port t =
    lit "target: "
    ++ (t.target
        ++ (lit ", resp_time: "
            ++ (print_unsigned t.resp_time
                ++ (lit ", ttl: " ++ (decimal ttl ++ (lit ", port: " ++ decimal port))))))
