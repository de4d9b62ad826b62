-- ===== src/Probe/Ttl/Header.antt =====
-- The IP header of the datagram that is sent.
use vyatta_wanloadbalance.Common.{
  ℕ, ◌+◌, ◌<◌, ◌≡◌, refl, sym, ap, ◌∙◌, [], ◌∷◌, ◌++◌, Bytes, IsByte, All, le16, le32, htons,
  write_at, take, drop, length, get_or, arith, length-write_at, get_or-write_at_below,
  get_or-write_at_in, get_or-take, length-drop, length-take, write_at-IsByte, le16-IsByte,
  le32-IsByte, take-write_at, take-write_at_behind, drop-write_at, take-IsByte, write_at_zero,
  drop-write_at_front, write_at_both, ◌%◌,
}
use vyatta_wanloadbalance.Probe.Checksum.{ip_checksum}
use vyatta_wanloadbalance.Probe.Checksum.Valid.{
  network_sum, word_sum, word_sum_bound, checked_behind,
}
use vyatta_wanloadbalance.Probe.Ttl.{ip_body, ip_packet, udp_body, ttl_packet}

module _ (stack : Bytes) (pid ttl saddr daddr packet_id : ℕ) (room : length stack ≡ 42)
    (bytes : All IsByte stack) where
  ip_body-IsByte : All IsByte (ip_body stack pid ttl saddr daddr)
  unfolding ip_body
  ip_body-IsByte = write_at-IsByte 16 _ _ (le32-IsByte daddr) (
      write_at-IsByte 12 _ _ (le32-IsByte saddr) (
        write_at-IsByte 10 _ _ (le16-IsByte 0) (
          write_at-IsByte 8 _ _ (omega arith) (
            write_at-IsByte 6 _ _ (le16-IsByte 0) (
              write_at-IsByte 4 _ _ (le16-IsByte (htons pid)) (
                write_at-IsByte 2 _ _ (le16-IsByte 28)
                  (write_at-IsByte 0 _ stack (omega arith) bytes)))))))

  length-ip_body : length (ip_body stack pid ttl saddr daddr) ≡ 42
  unfolding ip_body
  length-ip_body = simp length-write_at room

  pub length-ip_packet : length (ip_packet stack pid ttl saddr daddr) ≡ 42
  unfolding ip_packet
  length-ip_packet = length-write_at 10 _ _ ∙ length-ip_body

  pub ip_packet-IsByte : All IsByte (ip_packet stack pid ttl saddr daddr)
  unfolding ip_packet
  ip_packet-IsByte = write_at-IsByte 10 _ _ (le16-IsByte _) ip_body-IsByte

  -- The header as it is sent.
  take-ttl_packet :
      take 20 (ttl_packet stack pid ttl saddr daddr packet_id)
      ≡ take 20 (ip_packet stack pid ttl saddr daddr)
  unfolding ttl_packet udp_body
  take-ttl_packet =
      take-write_at_behind 20 26 _ _ (omega arith)
      ∙ take-write_at_behind 20 26 _ _ (omega arith)
      ∙ take-write_at_behind 20 24 _ _ (omega arith)
      ∙ take-write_at_behind 20 22 _ _ (omega arith)
      ∙ take-write_at_behind 20 20 _ _ (omega arith)

  header : Bytes
  header = take 20 (ip_body stack pid ttl saddr daddr)

  length-header : length header ≡ 20
  unfolding header
  length-header = omega (arith, length-take 20 (ip_body stack pid ttl saddr daddr), length-ip_body)

  header-IsByte : All IsByte header
  unfolding header
  header-IsByte = take-IsByte 20 _ ip_body-IsByte

  check_byte : (k : ℕ) → k < 2 → get_or header (10 + k) 0 ≡ get_or (le16 0) k 0
  unfolding header ip_body
  check_byte k h =
      get_or-take 20 _ (10 + k) (omega arith)
      ∙ get_or-write_at_below 16 _ _ (10 + k) (omega arith)
      ∙ get_or-write_at_below 12 _ _ (10 + k) (omega arith)
      ∙ get_or-write_at_in 10 (le16 0) _ k (omega arith)
          (simp length-write_at (omega (arith, room)))

  zero_there : write_at 10 (le16 0) header ≡ header
  zero_there =
      write_at_zero 10 header (omega (arith, length-header)) (check_byte 0 (omega arith))
        (check_byte 1 (omega arith))

  pub ip_header-valid :
      network_sum (take 20 (ttl_packet stack pid ttl saddr daddr packet_id)) % 65535 ≡ 0
  unfolding ip_packet header
  ip_header-valid =
      ap (λ h. network_sum h % 65535)
        (take-ttl_packet ∙ take-write_at 20 10 _ (ip_body stack pid ttl saddr daddr))
      ∙ ap (λ h. network_sum (write_at 10 (le16 (ip_checksum h)) h) % 65535) (sym zero_there)
      ∙ checked_behind 5 [] header 0 refl (omega (arith, length-header)) (
          omega (
            arith,
            ap word_sum zero_there,
            word_sum_bound [] tt,
            word_sum_bound header header-IsByte,
            length-header,
          ))

  -- The two addresses at the end of the header.
  pub header_addresses :
      drop 12 (take 20 (ttl_packet stack pid ttl saddr daddr packet_id)) ≡ le32 saddr ++ le32 daddr
  unfolding ip_packet ip_body le32
  header_addresses =
      ap (drop 12) (take-ttl_packet ∙ take-write_at 20 10 _ _)
      ∙ drop-write_at_front 12 10 _ _ (omega arith)
      ∙ ap (drop 12)
          (take-write_at 20 16 _ _ ∙ ap (write_at 16 (le32 daddr)) (take-write_at 20 12 _ _))
      ∙ drop-write_at 12 4 (le32 daddr) _
      ∙ ap (write_at 4 (le32 daddr)) (drop-write_at 12 0 (le32 saddr) _)
      ∙ write_at_both (le32 saddr) (le32 daddr) _
          (simp (length-drop, length-take, length-write_at, room) refl)

  pub protocol : get_or (ttl_packet stack pid ttl saddr daddr packet_id) 9 0 ≡ 17
  unfolding ttl_packet udp_body ip_packet ip_body
  protocol =
      get_or-write_at_below 26 _ _ 9 (omega arith)
      ∙ get_or-write_at_below 26 _ _ 9 (omega arith)
      ∙ get_or-write_at_below 24 _ _ 9 (omega arith)
      ∙ get_or-write_at_below 22 _ _ 9 (omega arith)
      ∙ get_or-write_at_below 20 _ _ 9 (omega arith)
      ∙ get_or-write_at_below 10 _ _ 9 (omega arith)
      ∙ get_or-write_at_below 16 _ _ 9 (omega arith)
      ∙ get_or-write_at_below 12 _ _ 9 (omega arith)
      ∙ get_or-write_at_below 10 _ _ 9 (omega arith)
      ∙ get_or-write_at_in 8 (ttl % 256 ∷ 17 ∷ []) _ 1 (omega arith)
          (simp length-write_at (omega (arith, room)))
