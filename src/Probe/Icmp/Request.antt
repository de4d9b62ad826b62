-- ===== src/Probe/Icmp/Request.antt =====
-- The echo request that is sent, and the reply to it.
use vyatta_wanloadbalance.Common.{
  ℕ, ◌+◌, ◌/◌, ◌%◌, ◌^◌, ◌<◌, ◌≡◌, sym, ap, ◌∙◌, ◌∷◌, ◌++◌, Bytes, IsByte, All, pos, le16, le32,
  htons, write_at, overlay, drop, length, get_or, arith, length-write_at, get_or-write_at_above,
  get_or-write_at_below, get_or-write_at_in, get_or-drop, get_or-overlay-append, length-drop,
  write_at-IsByte, le16-IsByte, le32-IsByte, le64-IsByte,
}
use vyatta_wanloadbalance.Probe.{decode}
use vyatta_wanloadbalance.Probe.Checksum.Valid.{network_sum, word_sum_bound, icmp_checked}
use vyatta_wanloadbalance.Probe.Icmp.{icmp_fields, icmp_packet}

module _ (stack : Bytes) (pid : ℕ) (now : ℕ × ℕ) (packet_id : ℕ) (room : length stack ≡ 40) where
  length-icmp_fields : length (icmp_fields stack pid now packet_id) ≡ 40
  unfolding icmp_fields
  length-icmp_fields = simp length-write_at room

  icmp_fields-IsByte : All IsByte stack → All IsByte (icmp_fields stack pid now packet_id)
  unfolding icmp_fields
  icmp_fields-IsByte bytes = write_at-IsByte 6 _ _ (le16-IsByte 1) (
      write_at-IsByte 18 _ _ (le16-IsByte 40) (
        write_at-IsByte 16 _ _ (le32-IsByte packet_id) (
          write_at-IsByte 12 _ _ (le64-IsByte now.1) (
            write_at-IsByte 8 _ _ (le64-IsByte now.0) (
              write_at-IsByte 6 _ _ (le16-IsByte 0) (
                write_at-IsByte 4 _ _ (le16-IsByte (htons pid)) (
                  write_at-IsByte 2 _ _ (le16-IsByte 0)
                    (write_at-IsByte 0 _ stack (omega arith) bytes))))))))

  -- The request carries a valid checksum: what a host adds up of all its 40 bytes, as RFC 1071 has it,
  -- is a multiple of 65535, whatever the stack held.
  pub icmp_packet-checksum :
      All IsByte stack
      → (length (icmp_packet stack pid now packet_id) ≡ 40)
        × (network_sum (icmp_packet stack pid now packet_id) % 65535 ≡ 0)
  unfolding icmp_packet
  icmp_packet-checksum bytes = (
    simp length-write_at length-icmp_fields,
    icmp_checked 1 20 fields (omega (arith, length-icmp_fields)) (omega (arith, length-icmp_fields))
        (omega (
          arith,
          word_sum_bound (write_at 2 (le16 0) fields)
              (write_at-IsByte 2 (le16 0) fields (le16-IsByte 0) (icmp_fields-IsByte bytes)),
          length-write_at 2 (le16 0) fields,
          length-icmp_fields,
        )),
  )
    where
      fields : Bytes
      fields = icmp_fields stack pid now packet_id

  -- The number of the packet stands at byte 16; its upper half is written over.
  packet_byte :
      (k : ℕ)
      → k < 2
      → get_or (icmp_packet stack pid now packet_id) (16 + k) 0 ≡ get_or (le32 packet_id) k 0
  unfolding icmp_packet icmp_fields
  packet_byte k h =
      get_or-write_at_above 2 _ _ (16 + k) (omega arith)
      ∙ get_or-write_at_above 2 _ _ (16 + k) (omega arith)
      ∙ get_or-write_at_above 6 _ _ (16 + k) (omega arith)
      ∙ get_or-write_at_below 18 _ _ (16 + k) (omega arith)
      ∙ get_or-write_at_in 16 (le32 packet_id) _ k (unfold le32 in omega arith)
          (simp length-write_at (omega arith))

-- The bytes that `recv` reads of an echo reply: an IP header of 20 bytes, the type 0 and a code and
-- checksum of its own, and the rest of the request, which RFC 792 has a host return.
abbrev pub echo_reply : Bytes → ℕ → ℕ → ℕ → Bytes → Bytes
echo_reply ip code sum sum' request = ip ++ 0 ∷ code ∷ sum ∷ sum' ∷ drop 4 request

decode_reply :
    (b : Bytes) (n : ℕ)
    → n < 2 ^ 16
    → get_or b 20 0 ≡ 0
    → get_or b 36 0 ≡ n % 256
    → get_or b 37 0 ≡ n / 256 % 256
    → decode b ≡ pos n
unfolding decode
decode_reply b n small type low high = rw (type, low, high) (ap pos (omega arith))

module _ (stack buffer ip : Bytes) (pid : ℕ) (now : ℕ × ℕ) (packet_id code sum sum' : ℕ)
    (room : length stack ≡ 40) (space : length buffer ≡ 56) (header : length ip ≡ 20) where
  request : Bytes
  request = icmp_packet stack pid now packet_id

  length-request : length request ≡ 40
  unfolding request icmp_packet
  length-request = simp length-write_at (length-icmp_fields stack pid now packet_id room)

  read_byte :
      (k : ℕ)
      → k < 36
      → get_or (overlay (echo_reply ip code sum sum' request) buffer) (20 + k) 0
        ≡ get_or (0 ∷ code ∷ sum ∷ sum' ∷ drop 4 request) k 0
  read_byte k h =
      ap (λ n. get_or (overlay (echo_reply ip code sum sum' request) buffer) (n + k) 0) (sym header)
      ∙ get_or-overlay-append ip _ buffer k (omega (arith, length-drop 4 request, length-request))
          (omega arith)

  number_byte : (k : ℕ) → k < 2 → get_or (drop 4 request) (12 + k) 0 ≡ get_or (le32 packet_id) k 0
  unfolding request
  number_byte k h =
      get_or-drop 4 request (12 + k)
      ∙ ap (λ i. get_or request i 0) (omega arith)
      ∙ packet_byte stack pid now packet_id room k h

  -- If a host returns the request that carries the number of a packet, as RFC 792 has it, `recv`
  -- reads that number in the reply, whatever the header of the reply and the stack hold.
  pub decode-echo_reply :
      packet_id < 2 ^ 16
      → decode (overlay (echo_reply ip code sum sum' (icmp_packet stack pid now packet_id)) buffer)
        ≡ pos packet_id
  unfolding request le32
  decode-echo_reply small =
      decode_reply _ packet_id small (read_byte 0 (omega arith))
        (read_byte 16 (omega arith) ∙ number_byte 0 (omega arith))
        (read_byte 17 (omega arith) ∙ number_byte 1 (omega arith))
