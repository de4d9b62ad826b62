-- ===== src/Common/Memory/Slices.antt =====
-- Parts of a buffer, and what writing to it leaves of them.
use Prim.Native.Nat.{ℕ, zero, suc, ◌+◌, ◌/◌, ◌^◌, ◌≤◌, ◌<◌}
use mathlib.Core.Path.{◌≡◌, refl, sym, ap, ◌∙◌}
use mathlib.Core.List.{[], ◌∷◌, ◌++◌}
use native.Mathlib.Omega.{arith}
use vyatta_wanloadbalance.Common.Lists.{length, get_or, take, drop, All, length-append}
use vyatta_wanloadbalance.Common.Memory.{
  Bytes, IsByte, le16, le32, le64, overlay, write_at, get_or-overlay_in, get_or-append_right,
}

take-overlay : (n : ℕ) (xs buffer : Bytes) → take n (overlay xs buffer) ≡ overlay xs (take n buffer)
unfolding overlay
take-overlay n [] buffer = refl
take-overlay zero (x ∷ xs) buffer = refl
take-overlay (suc n) (x ∷ xs) [] = refl
take-overlay (suc n) (x ∷ xs) (b ∷ buffer) = ap (λ l. x ∷ l) (take-overlay n xs buffer)

-- The front of a buffer that is written within it.
pub take-write_at :
    (n i : ℕ) (xs buffer : Bytes) → take n (write_at i xs buffer) ≡ write_at i xs (take n buffer)
unfolding write_at
take-write_at n zero xs buffer = take-overlay n xs buffer
take-write_at zero (suc i) xs buffer = refl
take-write_at (suc n) (suc i) xs [] = refl
take-write_at (suc n) (suc i) xs (b ∷ buffer) = ap (λ l. b ∷ l) (take-write_at n i xs buffer)

-- The front of a buffer that is written behind it.
pub take-write_at_behind :
    (n i : ℕ) (xs buffer : Bytes) → n ≤ i → take n (write_at i xs buffer) ≡ take n buffer
unfolding write_at
take-write_at_behind zero i xs buffer h = refl
take-write_at_behind (suc n) zero xs buffer h = elim h [ ]
take-write_at_behind (suc n) (suc i) xs [] h = refl
take-write_at_behind (suc n) (suc i) xs (b ∷ buffer) h =
    ap (λ l. b ∷ l) (take-write_at_behind n i xs buffer (omega arith))

write_at_nil : (i : ℕ) (xs : Bytes) → write_at i xs [] ≡ []
unfolding write_at overlay
write_at_nil zero [] = refl
write_at_nil zero (x ∷ xs) = refl
write_at_nil (suc i) xs = refl

-- The back of a buffer that is written there.
pub drop-write_at :
    (n i : ℕ) (xs buffer : Bytes)
    → drop n (write_at (n + i) xs buffer) ≡ write_at i xs (drop n buffer)
unfolding write_at
drop-write_at zero i xs buffer = ap (λ k. write_at k xs buffer) (omega arith)
drop-write_at (suc n) i xs [] =
    let e : suc n + i ≡ suc (n + i) = omega arith in rw (e, write_at_nil) refl
drop-write_at (suc n) i xs (b ∷ buffer) =
    let e : suc n + i ≡ suc (n + i) = omega arith in rw e (drop-write_at n i xs buffer)

pub take-take : (n m : ℕ) (b : Bytes) → n ≤ m → take n (take m b) ≡ take n b
take-take zero m b h = refl
take-take (suc n) zero b h = elim h [ ]
take-take (suc n) (suc m) [] h = refl
take-take (suc n) (suc m) (x ∷ b) h = ap (λ l. x ∷ l) (take-take n m b (omega arith))

take_nil : (n : ℕ) → ◌≡◌ {A = Bytes} (take n []) []
take_nil zero = refl
take_nil (suc n) = refl

pub drop-take : (n m : ℕ) (b : Bytes) → drop n (take (n + m) b) ≡ take m (drop n b)
drop-take zero m b = ap (λ k. take k b) (omega arith)
drop-take (suc n) m [] = let e : suc n + m ≡ suc (n + m) = omega arith in rw e (sym (take_nil m))
drop-take (suc n) m (x ∷ b) =
    let e : suc n + m ≡ suc (n + m) = omega arith in rw e (drop-take n m b)

drop-overlay_front :
    (n : ℕ) (xs buffer : Bytes) → length xs ≤ n → drop n (overlay xs buffer) ≡ drop n buffer
unfolding overlay
drop-overlay_front n [] buffer h = refl
drop-overlay_front zero (x ∷ xs) buffer h = elim h [ ]
drop-overlay_front (suc n) (x ∷ xs) [] h = refl
drop-overlay_front (suc n) (x ∷ xs) (b ∷ buffer) h = drop-overlay_front n xs buffer (omega arith)

-- The back of a buffer that is written in front of it.
pub drop-write_at_front :
    (n i : ℕ) (xs buffer : Bytes)
    → i + length xs ≤ n
    → drop n (write_at i xs buffer) ≡ drop n buffer
unfolding write_at
drop-write_at_front n zero xs buffer h = drop-overlay_front n xs buffer (omega arith)
drop-write_at_front zero (suc i) xs buffer h = absurd (omega arith)
drop-write_at_front (suc n) (suc i) xs [] h = refl
drop-write_at_front (suc n) (suc i) xs (b ∷ buffer) h =
    drop-write_at_front n i xs buffer (omega arith)

overlay_whole : (xs buffer : Bytes) → length xs ≡ length buffer → overlay xs buffer ≡ xs
unfolding overlay
overlay_whole [] [] h = refl
overlay_whole [] (b ∷ buffer) h = absurd (omega arith)
overlay_whole (x ∷ xs) [] h = absurd (omega arith)
overlay_whole (x ∷ xs) (b ∷ buffer) h = ap (λ l. x ∷ l) (overlay_whole xs buffer (omega arith))

-- A buffer that is written in two parts.
pub write_at_both :
    (xs ys buffer : Bytes)
    → length buffer ≡ length xs + length ys
    → write_at (length xs) ys (write_at 0 xs buffer) ≡ xs ++ ys
unfolding write_at overlay
write_at_both [] ys buffer h = overlay_whole ys buffer (omega arith)
write_at_both (x ∷ xs) ys [] h = absurd (omega arith)
write_at_both (x ∷ xs) ys (b ∷ buffer) h =
    ap (λ l. x ∷ l) (write_at_both xs ys buffer (omega arith))

pub take-IsByte : (n : ℕ) (b : Bytes) → All IsByte b → All IsByte (take n b)
take-IsByte zero b p = tt
take-IsByte (suc n) [] p = tt
take-IsByte (suc n) (x ∷ b) p = (p.0, take-IsByte n b p.1)

pub drop-IsByte : (n : ℕ) (b : Bytes) → All IsByte b → All IsByte (drop n b)
drop-IsByte zero b p = p
drop-IsByte (suc n) [] p = tt
drop-IsByte (suc n) (x ∷ b) p = drop-IsByte n b p.1

pub append-IsByte : (xs ys : Bytes) → All IsByte xs → All IsByte ys → All IsByte (xs ++ ys)
append-IsByte [] ys p q = q
append-IsByte (x ∷ xs) ys p q = (p.0, append-IsByte xs ys p.1 q)

pub le16-IsByte : (n : ℕ) → All IsByte (le16 n)
le16-IsByte n = omega arith

pub le32-IsByte : (n : ℕ) → All IsByte (le32 n)
unfolding le32
le32-IsByte n = omega arith

pub le64-IsByte : (n : ℕ) → All IsByte (le64 n)
unfolding le64
le64-IsByte n =
    append-IsByte (le32 n) (le32 (n / 2 ^ 32)) (le32-IsByte n) (le32-IsByte (n / 2 ^ 32))

pub get_or-drop : (n : ℕ) (b : Bytes) (k : ℕ) → get_or (drop n b) k 0 ≡ get_or b (n + k) 0
get_or-drop zero b k = ap (λ i. get_or b i 0) (omega arith)
get_or-drop (suc n) [] k = refl
get_or-drop (suc n) (x ∷ b) k =
    let e : suc n + k ≡ suc (n + k) = omega arith in rw e (get_or-drop n b k)

-- A byte behind a header of what is written to the front of a buffer.
pub get_or-overlay-append :
    (xs ys buffer : Bytes) (k : ℕ)
    → k < length ys
    → length xs + k < length buffer
    → get_or (overlay (xs ++ ys) buffer) (length xs + k) 0 ≡ get_or ys k 0
get_or-overlay-append xs ys buffer k h room =
    get_or-overlay_in (xs ++ ys) buffer (length xs + k) (omega (arith, length-append xs ys)) room
    ∙ get_or-append_right xs ys k

-- A zero that is written over a zero.
pub write_at_zero :
    (i : ℕ) (b : Bytes)
    → i + 2 ≤ length b
    → get_or b i 0 ≡ 0
    → get_or b (i + 1) 0 ≡ 0
    → write_at i (le16 0) b ≡ b
unfolding write_at
write_at_zero zero [] h p q = refl
write_at_zero zero (x ∷ []) h p q = absurd (omega arith)
write_at_zero zero (x ∷ y ∷ b) h p q = unfold overlay in ground (arith)
write_at_zero (suc i) [] h p q = absurd (omega arith)
write_at_zero (suc i) (x ∷ b) h p q =
    let e : suc i + 1 ≡ suc (i + 1) = omega arith in
    ap (λ l. x ∷ l) (write_at_zero i b (omega arith) p (rw (← ap (λ k. get_or (x ∷ b) k 0) e) q))

pub get_or-take : (n : ℕ) (b : Bytes) (k : ℕ) → k < n → get_or (take n b) k 0 ≡ get_or b k 0
get_or-take zero b k h = elim h [ ]
get_or-take (suc n) [] k h = refl
get_or-take (suc n) (x ∷ b) zero h = refl
get_or-take (suc n) (x ∷ b) (suc k) h = get_or-take n b k (omega arith)
