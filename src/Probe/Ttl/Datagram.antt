-- ===== src/Probe/Ttl/Datagram.antt =====
-- The checksums of the datagram that is sent.
use vyatta_wanloadbalance.Common.{
  ℕ, ◌+◌, ◌^◌, ◌<◌, ◌≡◌, refl, ap, ◌∙◌, [], ◌∷◌, ◌++◌, Bytes, IsByte, All, le16, le32, htons,
  write_at, take, drop, length, get_or, arith, length-write_at, get_or-write_at_below,
  get_or-write_at_in, get_or-take, length-drop, length-take, write_at-IsByte, le16-IsByte,
  le32-IsByte, take-write_at, drop-write_at, take-IsByte, drop-IsByte, append-IsByte, take-take,
  drop-take, ◌%◌, ◌/◌, ◌*◌, ◌≢◌,
}
use vyatta_wanloadbalance.Probe.Checksum.{ip_checksum, pseudo_header, udp_checksum}
use vyatta_wanloadbalance.Probe.Checksum.Valid.{
  network_sum, network_sum-append, word_sum, word_sum_bound, checked_behind,
}
use vyatta_wanloadbalance.Probe.Ttl.{ip_packet, udp_body, ttl_packet}
use vyatta_wanloadbalance.Probe.Ttl.Header.{
  length-ip_packet, ip_packet-IsByte, ip_header-valid, header_addresses, protocol,
}

-- The pseudo header of RFC 768 as a receiver makes it: the addresses and the protocol that the IP
-- header names, and a length.
abbrev pub receiver_front : Bytes → ℕ → Bytes
receiver_front packet size =
    drop 12 (take 20 packet) ++ 0 ∷ get_or packet 9 0 ∷ size / 256 ∷ size % 256 ∷ []

-- What a receiver adds up for the UDP checksum, with the bytes behind the IP header.
abbrev pub udp_sum : Bytes → ℕ → ℕ
udp_sum packet size = network_sum (receiver_front packet size ++ drop 20 packet)

-- The length that the UDP header claims.
abbrev pub udp_length : Bytes → ℕ
udp_length packet = 256 * get_or packet 24 0 + get_or packet 25 0

module _ (stack : Bytes) (pid ttl saddr daddr packet_id : ℕ) (room : length stack ≡ 42)
    (bytes : All IsByte stack) where
  -- The UDP header before the last write of a zero to its checksum, and the eight bytes behind it.
  udp_part : Bytes
  udp_part = take 16 (
      drop 20 (
        write_at 24 (le16 8) (
          write_at 22 (le16 (htons packet_id))
            (write_at 20 (le16 (htons packet_id)) (ip_packet stack pid ttl saddr daddr)))))

  length-udp_part : length udp_part ≡ 16
  unfolding udp_part
  length-udp_part =
      simp
        (
          length-take,
          length-drop,
          length-write_at,
          (length-ip_packet stack pid ttl saddr daddr packet_id room bytes),
        )
        refl

  udp_part-IsByte : All IsByte udp_part
  unfolding udp_part
  udp_part-IsByte = take-IsByte 16 _ (
      drop-IsByte 20 _ (
        write_at-IsByte 24 _ _ (le16-IsByte 8) (
          write_at-IsByte 22 _ _ (le16-IsByte (htons packet_id)) (
            write_at-IsByte 20 _ _ (le16-IsByte (htons packet_id))
              (ip_packet-IsByte stack pid ttl saddr daddr packet_id room bytes)))))

  behind :
      (xs b : Bytes) → take 16 (drop 20 (write_at 26 xs b)) ≡ write_at 6 xs (take 16 (drop 20 b))
  behind xs b = ap (take 16) (drop-write_at 20 6 xs b) ∙ take-write_at 16 6 xs (drop 20 b)

  udp_body_part :
      take 16 (drop 20 (udp_body (ip_packet stack pid ttl saddr daddr) packet_id))
      ≡ write_at 6 (le16 0) udp_part
  unfolding udp_body udp_part
  udp_body_part = behind (le16 0) _

  body : Bytes
  body = write_at 6 (le16 0) udp_part

  length-body : length body ≡ 16
  unfolding body
  length-body = length-write_at 6 (le16 0) udp_part ∙ length-udp_part

  front : Bytes
  front = pseudo_header 17 16 saddr daddr

  length-front : length front ≡ 12
  unfolding front pseudo_header le32
  length-front = refl

  front-IsByte : All IsByte front
  unfolding front pseudo_header
  front-IsByte =
      append-IsByte (le32 saddr) (le32 daddr ++ 0 ∷ 17 ∷ le16 (htons 16)) (le32-IsByte saddr)
        (append-IsByte (le32 daddr) (0 ∷ 17 ∷ le16 (htons 16)) (le32-IsByte daddr) (omega arith))

  udp_checksum-front :
      (b : Bytes) → length b ≡ 16 → udp_checksum 17 b saddr daddr ≡ ip_checksum (front ++ b)
  unfolding udp_checksum front
  udp_checksum-front b e = ap (λ n. ip_checksum (pseudo_header 17 n saddr daddr ++ b)) e

  sent_part :
      take 16 (drop 20 (ttl_packet stack pid ttl saddr daddr packet_id))
      ≡ write_at 6 (le16 (ip_checksum (front ++ body))) body
  unfolding ttl_packet body
  sent_part =
      behind _ _
      ∙ ap (λ b. write_at 6 (le16 (udp_checksum 17 b saddr daddr)) b) udp_body_part
      ∙ ap (λ c. write_at 6 (le16 c) body) (udp_checksum-front body length-body)

  small : word_sum front + word_sum body < 2 ^ 31
  unfolding body
  small = omega (
    arith,
    word_sum_bound front front-IsByte,
    word_sum_bound body (write_at-IsByte 6 (le16 0) udp_part (le16-IsByte 0) udp_part-IsByte),
    length-front,
    length-body,
  )

  sent : Bytes
  sent = take 36 (ttl_packet stack pid ttl saddr daddr packet_id)

  length_byte :
      (k : ℕ)
      → k < 2
      → get_or (ttl_packet stack pid ttl saddr daddr packet_id) (24 + k) 0 ≡ get_or (8 ∷ 0 ∷ []) k 0
  unfolding ttl_packet udp_body
  length_byte k h =
      get_or-write_at_below 26 _ _ (24 + k) (omega arith)
      ∙ get_or-write_at_below 26 _ _ (24 + k) (omega arith)
      ∙ get_or-write_at_in 24 (le16 8) _ k (omega arith) (
          simp length-write_at
            (omega (arith, (length-ip_packet stack pid ttl saddr daddr packet_id room bytes))))

  -- What is read of the packet within the 36 bytes that are sent.
  sent_front :
      (size : ℕ)
      → receiver_front sent size
        ≡ (le32 saddr ++ le32 daddr) ++ 0 ∷ 17 ∷ size / 256 ∷ size % 256 ∷ []
  unfolding sent
  sent_front size =
      ap (λ h. drop 12 h ++ 0 ∷ get_or sent 9 0 ∷ size / 256 ∷ size % 256 ∷ [])
        (take-take 20 36 (ttl_packet stack pid ttl saddr daddr packet_id) (omega arith))
      ∙ ap (λ a. a ++ 0 ∷ get_or sent 9 0 ∷ size / 256 ∷ size % 256 ∷ [])
          (header_addresses stack pid ttl saddr daddr packet_id room bytes)
      ∙ ap (λ p. (le32 saddr ++ le32 daddr) ++ 0 ∷ p ∷ size / 256 ∷ size % 256 ∷ [])
          (get_or-take 36 (ttl_packet stack pid ttl saddr daddr packet_id) 9 (omega arith)
            ∙ protocol stack pid ttl saddr daddr packet_id room bytes)

  sent_behind : drop 20 sent ≡ take 16 (drop 20 (ttl_packet stack pid ttl saddr daddr packet_id))
  unfolding sent
  sent_behind = drop-take 20 16 (ttl_packet stack pid ttl saddr daddr packet_id)

  udp_valid : udp_sum sent 16 % 65535 ≡ 0
  unfolding body front pseudo_header le32
  udp_valid =
      ap (λ x. network_sum x % 65535)
        (ap (λ f. f ++ drop 20 sent) (sent_front 16)
          ∙ ap (λ b. front ++ b) (sent_behind ∙ sent_part))
      ∙ checked_behind 3 front udp_part 6 length-front (omega (arith, length-udp_part)) small

  -- The sum with another length.
  udp_sum_length : (size : ℕ) → size < 2 ^ 16 → udp_sum sent size + 16 ≡ udp_sum sent 16 + size
  unfolding network_sum le32
  udp_sum_length size small = omega (arith, sum size, sum 16)
    where
      sum :
          (n : ℕ)
          → udp_sum sent n
            ≡ network_sum (le32 saddr ++ le32 daddr)
              + (17 + (256 * (n / 256) + n % 256))
              + network_sum (drop 20 sent)
      sum n =
          ap (λ f. network_sum (f ++ drop 20 sent)) (sent_front n)
          ∙ network_sum-append 6 ((le32 saddr ++ le32 daddr) ++ 0 ∷ 17 ∷ n / 256 ∷ n % 256 ∷ [])
              (drop 20 sent) refl
          ∙ ap (λ k. k + network_sum (drop 20 sent))
              (network_sum-append 4 (le32 saddr ++ le32 daddr) (0 ∷ 17 ∷ n / 256 ∷ n % 256 ∷ [])
                  refl
                ∙ omega arith)

  -- The 36 bytes that are sent, whatever the stack held. What a receiver adds up of the IP header is a
  -- multiple of 65535, so its checksum is valid by RFC 1071. So is that of the UDP part for the 16
  -- bytes that follow the header; but the length in the UDP header is 2048, and for that length it is
  -- not valid.
  pub ttl_packet-checksums :
      let packet = take 36 (ttl_packet stack pid ttl saddr daddr packet_id) in
      (network_sum (take 20 packet) % 65535 ≡ 0)
      × (udp_sum packet 16 % 65535 ≡ 0)
      × (udp_length packet ≡ 2048)
      × (udp_sum packet (udp_length packet) % 65535 ≢ 0)
  unfolding sent
  ttl_packet-checksums = (
    ap (λ h. network_sum h % 65535) (take-take 20 36 _ (omega arith))
        ∙ (ip_header-valid stack pid ttl saddr daddr packet_id room bytes),
    udp_valid,
    claimed,
    omega (arith, claimed, ap (udp_sum sent) claimed, udp_sum_length 2048 (omega arith), udp_valid),
  )
    where
      claimed : udp_length sent ≡ 2048
      claimed = omega (
        arith,
        get_or-take 36 (ttl_packet stack pid ttl saddr daddr packet_id) 24 (omega arith),
        get_or-take 36 (ttl_packet stack pid ttl saddr daddr packet_id) 25 (omega arith),
        length_byte 0 (omega arith),
        length_byte 1 (omega arith),
      )
