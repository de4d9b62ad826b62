-- ===== src/Common/Memory.antt =====
-- Memory as a list of bytes: what `memcpy` and the assignment of a header's field write into a
-- buffer, on a little-endian machine.
pub mod Slices
use Prim.Native.Nat.{ℕ, zero, suc, ◌+◌, ◌*◌, ◌/◌, ◌%◌, ◌^◌, ◌≤◌, ◌<◌}
use mathlib.Core.Path.{◌≡◌, refl, ap, ◌∙◌}
use mathlib.Core.List.{List, [], ◌∷◌, ◌++◌}
use native.Mathlib.Omega.{arith}
use vyatta_wanloadbalance.Common.Lists.{length, get_or, take, drop, All, length-append}

abbrev pub Bytes : Type 0
Bytes = List ℕ

abbrev pub IsByte : ℕ → Type 0
IsByte b = b < 256

-- The low bytes of a number, in the order of the machine.
abbrev pub le16 : ℕ → Bytes
le16 n = n % 256 ∷ n / 256 % 256 ∷ []

unfoldable pub le32 : ℕ → Bytes
le32 n = n % 256 ∷ n / 256 % 256 ∷ n / 65536 % 256 ∷ n / 16777216 % 256 ∷ []

unfoldable pub le64 : ℕ → Bytes
unfolding le32
le64 n = le32 n ++ le32 (n / 2 ^ 32)

-- `htons`: the two bytes of a short, swapped.
abbrev pub htons : ℕ → ℕ
htons n = n % 256 * 256 + n / 256 % 256

-- The bytes in front of what a pointer points to are written over; those that find no place are
-- dropped.
unfoldable pub overlay : Bytes → Bytes → Bytes
overlay [] buffer = buffer
overlay (x ∷ xs) [] = []
overlay (x ∷ xs) (b ∷ buffer) = x ∷ overlay xs buffer

-- `memcpy(buffer + place, xs, length(xs))`.
unfoldable pub write_at : ℕ → Bytes → Bytes → Bytes
unfolding overlay
write_at zero xs buffer = overlay xs buffer
write_at (suc i) xs [] = []
write_at (suc i) xs (b ∷ buffer) = b ∷ write_at i xs buffer

length-overlay : (xs buffer : Bytes) → length (overlay xs buffer) ≡ length buffer
unfolding overlay
length-overlay [] buffer = refl
length-overlay (x ∷ xs) [] = refl
length-overlay (x ∷ xs) (b ∷ buffer) = ap suc (length-overlay xs buffer)

pub length-write_at : (i : ℕ) (xs buffer : Bytes) → length (write_at i xs buffer) ≡ length buffer
unfolding write_at
length-write_at zero xs buffer = length-overlay xs buffer
length-write_at (suc i) xs [] = refl
length-write_at (suc i) xs (b ∷ buffer) = ap suc (length-write_at i xs buffer)

overlay-IsByte :
    (xs buffer : Bytes) → All IsByte xs → All IsByte buffer → All IsByte (overlay xs buffer)
unfolding overlay
overlay-IsByte [] buffer p q = q
overlay-IsByte (x ∷ xs) [] p q = tt
overlay-IsByte (x ∷ xs) (b ∷ buffer) p q = (p.0, overlay-IsByte xs buffer p.1 q.1)

pub write_at-IsByte :
    (i : ℕ) (xs buffer : Bytes)
    → All IsByte xs
    → All IsByte buffer
    → All IsByte (write_at i xs buffer)
unfolding write_at
write_at-IsByte zero xs buffer p q = overlay-IsByte xs buffer p q
write_at-IsByte (suc i) xs [] p q = tt
write_at-IsByte (suc i) xs (b ∷ buffer) p q = (q.0, write_at-IsByte i xs buffer p q.1)

pub get_or-overlay_in :
    (xs buffer : Bytes) (i : ℕ)
    → i < length xs
    → i < length buffer
    → get_or (overlay xs buffer) i 0 ≡ get_or xs i 0
unfolding overlay
get_or-overlay_in [] buffer i h k = elim h [ ]
get_or-overlay_in (x ∷ xs) [] i h k = elim k [ ]
get_or-overlay_in (x ∷ xs) (b ∷ buffer) zero h k = refl
get_or-overlay_in (x ∷ xs) (b ∷ buffer) (suc i) h k =
    get_or-overlay_in xs buffer i (omega arith) (omega arith)

pub get_or-overlay_out :
    (xs buffer : Bytes) (i : ℕ) → length xs ≤ i → get_or (overlay xs buffer) i 0 ≡ get_or buffer i 0
unfolding overlay
get_or-overlay_out [] buffer i h = refl
get_or-overlay_out (x ∷ xs) [] i h = refl
get_or-overlay_out (x ∷ xs) (b ∷ buffer) zero h = elim h [ ]
get_or-overlay_out (x ∷ xs) (b ∷ buffer) (suc i) h = get_or-overlay_out xs buffer i (omega arith)

-- A byte that is written, by its place within what is written.
pub get_or-write_at_in :
    (i : ℕ) (xs buffer : Bytes) (k : ℕ)
    → k < length xs
    → i + k < length buffer
    → get_or (write_at i xs buffer) (i + k) 0 ≡ get_or xs k 0
unfolding write_at
get_or-write_at_in zero xs buffer k h l =
    let e : 0 + k ≡ k = omega arith in rw e (get_or-overlay_in xs buffer k h (omega arith))
get_or-write_at_in (suc i) xs [] k h l = elim l [ ]
get_or-write_at_in (suc i) xs (b ∷ buffer) k h l =
    let e : suc i + k ≡ suc (i + k) = omega arith in
    rw e (get_or-write_at_in i xs buffer k h (omega arith))

-- A byte in front of what is written.
pub get_or-write_at_below :
    (i : ℕ) (xs buffer : Bytes) (j : ℕ)
    → j < i
    → get_or (write_at i xs buffer) j 0 ≡ get_or buffer j 0
unfolding write_at
get_or-write_at_below zero xs buffer j h = elim h [ ]
get_or-write_at_below (suc i) xs [] j h = refl
get_or-write_at_below (suc i) xs (b ∷ buffer) zero h = refl
get_or-write_at_below (suc i) xs (b ∷ buffer) (suc j) h =
    get_or-write_at_below i xs buffer j (omega arith)

-- A byte behind what is written.
pub get_or-write_at_above :
    (i : ℕ) (xs buffer : Bytes) (j : ℕ)
    → i + length xs ≤ j
    → get_or (write_at i xs buffer) j 0 ≡ get_or buffer j 0
unfolding write_at
get_or-write_at_above zero xs buffer j h = get_or-overlay_out xs buffer j (omega arith)
get_or-write_at_above (suc i) xs [] j h = refl
get_or-write_at_above (suc i) xs (b ∷ buffer) zero h = absurd (omega arith)
get_or-write_at_above (suc i) xs (b ∷ buffer) (suc j) h =
    get_or-write_at_above i xs buffer j (omega arith)

pub get_or-append_right :
    (xs ys : Bytes) (k : ℕ) → get_or (xs ++ ys) (length xs + k) 0 ≡ get_or ys k 0
get_or-append_right [] ys k = ap (λ i. get_or ys i 0) (omega arith)
get_or-append_right (x ∷ xs) ys k = ground (arith, get_or-append_right xs ys k)

overlay_idem : (xs buffer : Bytes) → overlay xs (overlay xs buffer) ≡ overlay xs buffer
unfolding overlay
overlay_idem [] buffer = refl
overlay_idem (x ∷ xs) [] = refl
overlay_idem (x ∷ xs) (b ∷ buffer) = ap (λ l. x ∷ l) (overlay_idem xs buffer)

-- To write the same again changes nothing.
pub write_at_idem :
    (i : ℕ) (xs buffer : Bytes) → write_at i xs (write_at i xs buffer) ≡ write_at i xs buffer
unfolding write_at
write_at_idem zero xs buffer = overlay_idem xs buffer
write_at_idem (suc i) xs [] = refl
write_at_idem (suc i) xs (b ∷ buffer) = ap (λ l. b ∷ l) (write_at_idem i xs buffer)
