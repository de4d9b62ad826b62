-- ===== src/Probe/Checksum/Valid.antt =====
-- What a receiver finds when it checks a packet that carries its checksum.
use vyatta_wanloadbalance.Common.{
  ℕ, zero, suc, ◌+◌, ◌*◌, ◌%◌, ◌^◌, ◌≤◌, ◌<◌, ◌≡◌, refl, ap, ◌∙◌, [], ◌∷◌, ◌++◌, Bytes, IsByte,
  le16, write_at, overlay, length, length-write_at, write_at_idem, All, arith,
}
use vyatta_wanloadbalance.Probe.Checksum.{
  words, add_words, fold, icmp_checksum, sum_bytes, ip_checksum,
}

-- The sum of the shorts, where nothing overflows.
unfoldable pub word_sum : Bytes → ℕ
word_sum [] = 0
word_sum (lo ∷ []) = lo
word_sum (lo ∷ hi ∷ buffer) = lo + 256 * hi + word_sum buffer

-- What a receiver adds up, in the order of the network: the bytes in pairs, the first byte of a pair
-- as the higher one, and a zero behind a byte that is left over. By RFC 1071 the data is intact if
-- the sum is a multiple of 65535.
unfoldable pub network_sum : Bytes → ℕ
network_sum [] = 0
network_sum (hi ∷ []) = 256 * hi
network_sum (hi ∷ lo ∷ buffer) = 256 * hi + lo + network_sum buffer

-- The two orders differ by multiples of 65535.
second_sum : Bytes → ℕ
second_sum [] = 0
second_sum (hi ∷ []) = 0
second_sum (hi ∷ lo ∷ buffer) = lo + second_sum buffer

network_sum-word_sum : (b : Bytes) → network_sum b + 65535 * second_sum b ≡ 256 * word_sum b
unfolding network_sum word_sum second_sum
network_sum-word_sum [] = refl
network_sum-word_sum (hi ∷ []) = omega arith
network_sum-word_sum (hi ∷ lo ∷ buffer) = omega (arith, network_sum-word_sum buffer)

pub network_sum-valid : (b : Bytes) → word_sum b % 65535 ≡ 0 → network_sum b % 65535 ≡ 0
network_sum-valid b valid = omega (arith, network_sum-word_sum b, valid)

pub network_sum-append :
    (n : ℕ) (xs ys : Bytes)
    → length xs ≡ 2 * n
    → network_sum (xs ++ ys) ≡ network_sum xs + network_sum ys
unfolding network_sum
network_sum-append n [] ys e = omega arith
network_sum-append n (x ∷ []) ys e = absurd (omega arith)
network_sum-append zero (x ∷ y ∷ xs) ys e = absurd (omega arith)
network_sum-append (suc n) (x ∷ y ∷ xs) ys e =
    omega (arith, network_sum-append n xs ys (omega arith))

pub word_sum_bound : (b : Bytes) → All IsByte b → 2 * word_sum b ≤ 65535 * (length b + 1)
unfolding word_sum
word_sum_bound [] p = omega arith
word_sum_bound (lo ∷ []) p = omega arith
word_sum_bound (lo ∷ hi ∷ buffer) p = omega (arith, word_sum_bound buffer p.1.1)

pub sum_bytes-eq : (sum : ℕ) (b : Bytes) → sum_bytes sum b ≡ sum + word_sum b
unfolding sum_bytes word_sum
sum_bytes-eq sum [] = omega arith
sum_bytes-eq sum (lo ∷ []) = refl
sum_bytes-eq sum (lo ∷ hi ∷ buffer) = omega (arith, sum_bytes-eq (sum + (lo + 256 * hi)) buffer)

pub add_words-eq :
    (n sum : ℕ) (b : Bytes)
    → length b ≤ 2 * n
    → sum + word_sum b < 2 ^ 64
    → add_words sum (words n b) ≡ sum + word_sum b
unfolding words add_words word_sum
add_words-eq zero sum [] h k = omega arith
add_words-eq zero sum (lo ∷ buffer) h k = absurd (omega arith)
add_words-eq (suc n) sum [] h k = omega arith
add_words-eq (suc n) sum (lo ∷ []) h k = omega arith
add_words-eq (suc n) sum (lo ∷ hi ∷ buffer) h k =
    let e : (sum + (lo + 256 * hi)) % 2 ^ 64 ≡ sum + (lo + 256 * hi) = omega arith in
    rw (add_words, e)
      (omega (arith, add_words-eq n (sum + (lo + 256 * hi)) buffer (omega arith) (omega arith)))

-- A short at an even place in a buffer that has room for it.
word_sum-overlay :
    (c : ℕ) (b : Bytes)
    → 2 ≤ length b
    → c < 2 ^ 16
    → word_sum (overlay (le16 c) b) ≡ word_sum (overlay (le16 0) b) + c
unfolding word_sum overlay
word_sum-overlay c [] h l = elim h [ ]
word_sum-overlay c (x ∷ []) h l = absurd (omega arith)
word_sum-overlay c (x ∷ y ∷ b) h l = omega arith

pub word_sum-write :
    (k c : ℕ) (b : Bytes)
    → 2 * k + 2 ≤ length b
    → c < 2 ^ 16
    → word_sum (write_at (2 * k) (le16 c) b) ≡ word_sum (write_at (2 * k) (le16 0) b) + c
unfolding word_sum write_at
word_sum-write zero c b h l = word_sum-overlay c b (omega arith) l
word_sum-write (suc k) c [] h l = absurd (omega arith)
word_sum-write (suc k) c (x ∷ []) h l = absurd (omega arith)
word_sum-write (suc k) c (x ∷ y ∷ b) h l =
    let e : 2 * suc k ≡ suc (suc (2 * k)) = omega arith in
    rw e (omega (arith, word_sum-write k c b (omega arith) l))

-- A sum of shorts and the checksum that was made of it add up to a multiple of 65535.
pub fold_complement : (sum : ℕ) → sum < 2 ^ 31 → (sum + fold sum) % 65535 ≡ 0
unfolding fold
fold_complement sum h = omega arith

pub fold-lt : (sum : ℕ) → fold sum < 2 ^ 16
unfolding fold
fold-lt sum = omega arith

-- The checksum that is written over the zero that stood in its place while it was made.
module _ (k c : ℕ) (b : Bytes) (room : 2 * k + 2 ≤ length b) (short : c < 2 ^ 16) where
  pub word_sum-checksum :
      word_sum (write_at (2 * k) (le16 c) (write_at (2 * k) (le16 0) b))
      ≡ word_sum (write_at (2 * k) (le16 0) b) + c
  word_sum-checksum =
      word_sum-write k c (write_at (2 * k) (le16 0) b)
        (omega (arith, length-write_at (2 * k) (le16 0) b)) short
      ∙ ap (λ l. word_sum l + c) (write_at_idem (2 * k) (le16 0) b)

-- An even number of bytes in front of others.
word_sum-append :
    (n : ℕ) (xs ys : Bytes) → length xs ≡ 2 * n → word_sum (xs ++ ys) ≡ word_sum xs + word_sum ys
unfolding word_sum
word_sum-append n [] ys e = omega arith
word_sum-append n (x ∷ []) ys e = absurd (omega arith)
word_sum-append zero (x ∷ y ∷ xs) ys e = absurd (omega arith)
word_sum-append (suc n) (x ∷ y ∷ xs) ys e = omega (arith, word_sum-append n xs ys (omega arith))

pub ip_checksum-eq : (b : Bytes) → ip_checksum b ≡ fold (word_sum b)
unfolding ip_checksum
ip_checksum-eq b = ap fold (sum_bytes-eq 0 b ∙ (omega arith))

pub icmp_checksum-eq :
    (b : Bytes) (n : ℕ)
    → length b ≤ 2 * n
    → word_sum b < 2 ^ 64
    → icmp_checksum b n ≡ fold (word_sum b)
unfolding icmp_checksum
icmp_checksum-eq b n h k = ap fold (add_words-eq n 0 b h (omega arith) ∙ (omega arith))

module _ (k : ℕ) (front b : Bytes) (n : ℕ) (even : length front ≡ 2 * n)
    (room : 2 * k + 2 ≤ length b)
    (small : word_sum front + word_sum (write_at (2 * k) (le16 0) b) < 2 ^ 31) where
  -- Behind an even number of bytes, such as a pseudo header, that are sent elsewhere or not at all.
  pub checked_behind :
      let body = write_at (2 * k) (le16 0) b in
      network_sum (front ++ write_at (2 * k) (le16 (ip_checksum (front ++ body))) body) % 65535 ≡ 0
  checked_behind = network_sum-valid _ (
      ap (λ s. s % 65535)
        (word_sum-append n front _ even
          ∙ ap (λ s. word_sum front + s) (word_sum-checksum k c b room short)
          ∙ total)
      ∙ fold_complement _ small)
    where
      body : Bytes
      body = write_at (2 * k) (le16 0) b

      c : ℕ
      c = ip_checksum (front ++ body)

      made : c ≡ fold (word_sum front + word_sum body)
      made = ip_checksum-eq (front ++ body) ∙ ap fold (word_sum-append n front body even)

      short : c < 2 ^ 16
      short = rw made (fold-lt (word_sum front + word_sum body))

      total :
          word_sum front + (word_sum body + c)
          ≡ word_sum front + word_sum body + fold (word_sum front + word_sum body)
      total = omega (arith, made)

module _ (k n : ℕ) (b : Bytes) (room : 2 * k + 2 ≤ length b) (even : length b ≤ 2 * n)
    (small : word_sum (write_at (2 * k) (le16 0) b) < 2 ^ 31) where
  pub icmp_checked :
      let body = write_at (2 * k) (le16 0) b in
      network_sum (write_at (2 * k) (le16 (icmp_checksum body n)) body) % 65535 ≡ 0
  icmp_checked =
      network_sum-valid _
        (ap (λ s. s % 65535) (sum ∙ ap (λ s. word_sum body + s) made) ∙ fold_complement _ small)
    where
      body : Bytes
      body = write_at (2 * k) (le16 0) b

      c : ℕ
      c = icmp_checksum body n

      made : c ≡ fold (word_sum body)
      made =
          icmp_checksum-eq body n (omega (arith, length-write_at (2 * k) (le16 0) b)) (omega arith)

      short : c < 2 ^ 16
      short = rw made (fold-lt (word_sum body))

      sum : word_sum (write_at (2 * k) (le16 c) body) ≡ word_sum body + c
      sum = word_sum-checksum k c b room short
