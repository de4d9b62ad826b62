-- ===== src/Probe/Checksum.antt =====
-- src/lbtest_icmp.cc and src/lbtest_ttl.cc: the Internet checksum, in the two versions of
-- `in_checksum`, and `udp_checksum`.
pub mod Valid
use vyatta_wanloadbalance.Common.{
  ℕ, zero, suc, ◌+◌, ◌-◌, ◌*◌, ◌/◌, ◌%◌, ◌^◌, [], ◌∷◌, ◌++◌, List, Bytes, le16, le32, htons, length,
}

-- The shorts at the front of a buffer, as `*buffer++` reads them.
unfoldable pub words : ℕ → Bytes → List ℕ
words zero buffer = []
words (suc n) [] = []
words (suc n) (lo ∷ []) = lo ∷ []
words (suc n) (lo ∷ hi ∷ buffer) = (lo + 256 * hi) ∷ words n buffer

-- The loop of `LBTestICMP::in_checksum`: `sum` is an `unsigned long`.
unfoldable pub add_words : ℕ → List ℕ → ℕ
add_words sum [] = sum
add_words sum (w ∷ ws) = add_words ((sum + w) % 2 ^ 64) ws

-- Both versions end alike: the carry is added twice, and the complement is cut to a short.
unfoldable pub fold : ℕ → ℕ
fold sum =
    let once = sum / 2 ^ 16 + sum % 2 ^ 16 in
    let twice = once + once / 2 ^ 16 in 2 ^ 16 - 1 - twice % 2 ^ 16

-- `LBTestICMP::in_checksum`, where `count` is the number of shorts.
unfoldable pub icmp_checksum : Bytes → ℕ → ℕ
unfolding words add_words fold
icmp_checksum buffer count = fold (add_words 0 (words count buffer))

-- The loop of `LBTestTTL::in_checksum`: a byte that is left over counts as a short. Its `int` is not
-- exceeded by the 20 or 28 bytes that the program sums up.
unfoldable pub sum_bytes : ℕ → Bytes → ℕ
sum_bytes sum [] = sum
sum_bytes sum (lo ∷ []) = sum + lo
sum_bytes sum (lo ∷ hi ∷ buffer) = sum_bytes (sum + (lo + 256 * hi)) buffer

-- `LBTestTTL::in_checksum` of a whole buffer.
unfoldable pub ip_checksum : Bytes → ℕ
unfolding sum_bytes fold
ip_checksum buffer = fold (sum_bytes 0 buffer)

-- The pseudo header of `LBTestTTL::udp_checksum`. An address is the number that the machine reads
-- from its four bytes.
unfoldable pub pseudo_header : ℕ → ℕ → ℕ → ℕ → Bytes
unfolding le32
pseudo_header proto length source_address dest_address =
    le32 source_address ++ (le32 dest_address ++ 0 ∷ proto % 256 ∷ le16 (htons length))

-- `LBTestTTL::udp_checksum`, where there is memory for the copy.
unfoldable pub udp_checksum : ℕ → Bytes → ℕ → ℕ → ℕ
unfolding pseudo_header ip_checksum
udp_checksum proto packet source_address dest_address =
    ip_checksum (pseudo_header proto (length packet) source_address dest_address ++ packet)
