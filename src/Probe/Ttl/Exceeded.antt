-- ===== src/Probe/Ttl/Exceeded.antt =====
-- The answer of the router that drops a datagram.
use vyatta_wanloadbalance.Common.{
  ℕ, ◌+◌, ◌/◌, ◌%◌, ◌^◌, ◌<◌, ◌≡◌, sym, ap, ◌∙◌, ◌∷◌, ◌++◌, Bytes, pos, le16, htons, overlay, take,
  length, get_or, arith, length-write_at, get_or-write_at_below, get_or-write_at_in, get_or-take,
  get_or-overlay-append, get_or-append_right, length-append, length-take,
}
use vyatta_wanloadbalance.Probe.{decode}
use vyatta_wanloadbalance.Probe.Ttl.{ip_body, ip_packet, udp_body, ttl_packet}

module _ (stack : Bytes) (pid ttl saddr daddr packet_id : ℕ) (room : length stack ≡ 42) where
  packet : Bytes
  packet = ttl_packet stack pid ttl saddr daddr packet_id

  length-packet : length packet ≡ 42
  unfolding packet ttl_packet udp_body ip_packet ip_body
  length-packet = simp length-write_at room

  -- Both ports are the number of the packet in the order of the network.
  source_byte : (k : ℕ) → k < 2 → get_or packet (20 + k) 0 ≡ get_or (le16 (htons packet_id)) k 0
  unfolding packet ttl_packet udp_body ip_packet ip_body
  source_byte k h =
      get_or-write_at_below 26 _ _ (20 + k) (omega arith)
      ∙ get_or-write_at_below 26 _ _ (20 + k) (omega arith)
      ∙ get_or-write_at_below 24 _ _ (20 + k) (omega arith)
      ∙ get_or-write_at_below 22 _ _ (20 + k) (omega arith)
      ∙ get_or-write_at_in 20 (le16 (htons packet_id)) _ k (omega arith)
          (simp length-write_at (omega (arith, room)))

  dest_byte : (k : ℕ) → k < 2 → get_or packet (22 + k) 0 ≡ get_or (le16 (htons packet_id)) k 0
  unfolding packet ttl_packet udp_body ip_packet ip_body
  dest_byte k h =
      get_or-write_at_below 26 _ _ (22 + k) (omega arith)
      ∙ get_or-write_at_below 26 _ _ (22 + k) (omega arith)
      ∙ get_or-write_at_below 24 _ _ (22 + k) (omega arith)
      ∙ get_or-write_at_in 22 (le16 (htons packet_id)) _ k (omega arith)
          (simp length-write_at (omega (arith, room)))

-- The bytes that `recv` reads of the answer of a router: an IP header of 20 bytes, an ICMP header of
-- 8 bytes with the type 11, and, as RFC 792 has it, the IP header and 8 bytes of the packet.
abbrev pub time_exceeded : Bytes → Bytes → Bytes → Bytes
time_exceeded ip icmp packet = ip ++ ((11 ∷ icmp) ++ take 28 packet)

decode_exceeded :
    (b : Bytes) (n : ℕ)
    → n < 2 ^ 16
    → get_or b 20 0 ≡ 11
    → get_or b 49 0 ≡ n % 256
    → get_or b 50 0 ≡ n / 256
    → decode b ≡ pos n
unfolding decode
decode_exceeded b n small type low high = rw (type, low, high) (ap pos (omega arith))

module _ (stack buffer ip icmp : Bytes) (pid ttl saddr daddr packet_id : ℕ)
    (room : length stack ≡ 42) (space : length buffer ≡ 56) (header : length ip ≡ 20)
    (rest : length icmp ≡ 7) where
  answer : Bytes
  answer = overlay (time_exceeded ip icmp (packet stack pid ttl saddr daddr packet_id room)) buffer

  quoted : Bytes
  quoted = take 28 (packet stack pid ttl saddr daddr packet_id room)

  length-quoted : length quoted ≡ 28
  unfolding quoted
  length-quoted =
      omega (arith, length-take 28 (packet stack pid ttl saddr daddr packet_id room), length-packet)

  read_byte : (k : ℕ) → k < 36 → get_or answer (20 + k) 0 ≡ get_or ((11 ∷ icmp) ++ quoted) k 0
  unfolding answer quoted
  read_byte k h =
      ap (λ n. get_or answer (n + k) 0) (sym header)
      ∙ get_or-overlay-append ip ((11 ∷ icmp) ++ quoted) buffer k
          (omega (arith, length-append icmp quoted, length-quoted)) (omega arith)

  quoted_byte :
      (i : ℕ)
      → i < 28
      → get_or answer (28 + i) 0 ≡ get_or (packet stack pid ttl saddr daddr packet_id room) i 0
  unfolding quoted
  quoted_byte i h =
      ap (λ n. get_or answer n 0) (omega arith)
      ∙ read_byte (8 + i) (omega arith)
      ∙ ap (λ n. get_or ((11 ∷ icmp) ++ quoted) (n + i) 0) (omega arith)
      ∙ get_or-append_right (11 ∷ icmp) quoted i
      ∙ get_or-take 28 _ i h

  -- If a router drops the datagram and returns its IP header and the 8 bytes behind it, as RFC 792
  -- has it, `recv` reads the number of the packet across the two ports, whatever the headers of the
  -- answer and the stack hold.
  pub decode-time_exceeded :
      packet_id < 2 ^ 16
      → decode
          (overlay (time_exceeded ip icmp (ttl_packet stack pid ttl saddr daddr packet_id)) buffer)
        ≡ pos packet_id
  unfolding packet answer
  decode-time_exceeded small =
      decode_exceeded answer packet_id small (read_byte 0 (omega arith))
        (quoted_byte 21 (omega arith)
          ∙ source_byte stack pid ttl saddr daddr packet_id room 1 (omega arith)
          ∙ (omega arith))
        (quoted_byte 22 (omega arith)
          ∙ dest_byte stack pid ttl saddr daddr packet_id room 0 (omega arith)
          ∙ (omega arith))
