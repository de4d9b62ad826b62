-- ===== src/Ring/Window.antt =====
-- What `push` counts, against the run of equal results that it means to count.
use vyatta_wanloadbalance.Common.{
  ℕ, zero, suc, ◌+◌, ◌-◌, ◌≤◌, ◌<◌, ◌≡◌, refl, ap, ◌⊎◌, true, List, [], ◌∷◌, ℤ, arith, get_or,
  length, get_elem?-eq-get_or, get_elem?_out, pos, if◌then◌else◌,
}
use vyatta_wanloadbalance.Ring.{buffer_size, same_result, read, slot, count_same}

-- The results at the places `start, start - 1, ..., 0`.
abbrev pub window : List ℤ → ℕ → List ℤ
window results zero = get_or results 0 (pos 0) ∷ []
window results (suc j) = get_or results (suc j) (pos 0) ∷ window results j

-- The length of the run of results like `rtt` at the front of a list.
unfoldable pub run_length : ℤ → List ℤ → ℕ
run_length rtt [] = 0
run_length rtt (x ∷ xs) = if same_result x rtt then suc (run_length rtt xs) else 0

read_in :
    (beyond : ℕ → ℤ) (results : List ℤ) (k : ℕ)
    → k < length results
    → read beyond results k ≡ get_or results k (pos 0)
unfolding read
read_in beyond results k h = ground (arith, get_elem?-eq-get_or results k (pos 0) h)

read_out :
    (beyond : ℕ → ℤ) (results : List ℤ) (k : ℕ)
    → length results ≤ k
    → read beyond results k ≡ beyond k
unfolding read
read_out beyond results k h = ground (arith, get_elem?_out results k h)

slot_in : (i j start : ℕ) → i + j ≡ start → slot start i ≡ j
unfolding slot
slot_in i j start e = ground arith

slot_out : (i start : ℕ) → start < i → slot start i ≡ buffer_size + (i - start)
unfolding slot
slot_out i start h = ground arith

module _ (beyond : ℕ → ℤ) (results : List ℤ) (start : ℕ) (rtt : ℤ) where
  -- The result that the i-th round looks at, while the index is not negative.
  pub round_in :
      (i j : ℕ)
      → start < length results
      → i + j ≡ start
      → read beyond results (slot start i) ≡ get_or results j (pos 0)
  round_in i j h e = rw (slot_in i j start e) (read_in beyond results j (omega arith))

  pub count_same_grows : (n i ct : ℕ) → ct ≤ count_same beyond results start rtt n i ct
  unfolding count_same
  count_same_grows zero i ct = omega arith
  count_same_grows (suc n) i ct = ground (arith, count_same_grows n (i + 1) (ct + 1))

  pub count_same_bound : (n i ct : ℕ) → count_same beyond results start rtt n i ct ≤ ct + n
  unfolding count_same
  count_same_bound zero i ct = omega arith
  count_same_bound (suc n) i ct = ground (arith, count_same_bound n (i + 1) (ct + 1))

  -- The count never falls short of the run that lies inside the vector.
  pub count_same-ge :
      (j n i ct : ℕ)
      → start < length results
      → i + j ≡ start
      → j < n
      → ct + run_length rtt (window results j) ≤ count_same beyond results start rtt n i ct
  unfolding count_same run_length
  count_same-ge j zero i ct h e f = elim f [ ]
  count_same-ge zero (suc n) i ct h e f =
      ground (arith, round_in i 0 h e, count_same_grows n (i + 1) (ct + 1))
  count_same-ge (suc j) (suc n) i ct h e f = ground (
    arith,
    round_in i (suc j) h e,
    count_same-ge j n (i + 1) (ct + 1) h (omega arith) (omega arith),
  )

  -- It is that run, if the run ends inside the vector or the loop does.
  pub count_same-eq :
      (j n i ct : ℕ)
      → start < length results
      → i + j ≡ start
      → j < n
      → (run_length rtt (window results j) ≤ j) ⊎ (n ≡ suc j)
      → count_same beyond results start rtt n i ct ≡ ct + run_length rtt (window results j)
  unfolding count_same run_length
  count_same-eq j zero i ct h e f g = elim f [ ]
  count_same-eq zero (suc zero) i ct h e f g = ground (arith, round_in i 0 h e)
  count_same-eq zero (suc (suc n)) i ct h e f g = ground (arith, round_in i 0 h e)
  count_same-eq (suc j) (suc n) i ct h e f g = ground (
    arith,
    round_in i (suc j) h e,
    count_same-eq j n (i + 1) (ct + 1) h (omega arith) (omega arith),
  )

  -- A round with a negative index reads past the vector.
  pub round_out :
      (i : ℕ)
      → start < i
      → length results ≡ buffer_size
      → read beyond results (slot start i) ≡ beyond (buffer_size + (i - start))
  round_out i h e = rw (slot_out i start h) (read_out beyond results _ (omega arith))

  pub count_same_out_all :
      (n i ct : ℕ)
      → start < i
      → length results ≡ buffer_size
      → ((k : ℕ) → beyond k ≡ rtt)
      → count_same beyond results start rtt n i ct ≡ ct + n
  unfolding count_same
  count_same_out_all zero i ct h e all = omega arith
  count_same_out_all (suc n) i ct h e all = ground (
    arith,
    round_out i h e,
    all (buffer_size + (i - start)),
    count_same_out_all n (i + 1) (ct + 1) (omega arith) e all,
  )

-- A run is no longer than its list, and starts with a result that is like itself.
pub run_length-le : (rtt : ℤ) (xs : List ℤ) → run_length rtt xs ≤ length xs
unfolding run_length
run_length-le rtt [] = omega arith
run_length-le rtt (x ∷ xs) = ground (arith, run_length-le rtt xs)

pub length-window : (results : List ℤ) (j : ℕ) → length (window results j) ≡ suc j
length-window results zero = refl
length-window results (suc j) = ap suc (length-window results j)

same_result_self : (rtt : ℤ) → same_result rtt rtt ≡ true
same_result_self rtt = ground arith

pub run_length-window_pos :
    (results : List ℤ) (j : ℕ) (rtt : ℤ)
    → get_or results j (pos 0) ≡ rtt
    → 0 < run_length rtt (window results j)
unfolding run_length
run_length-window_pos results zero rtt e = rw (e, same_result_self rtt) (omega arith)
run_length-window_pos results (suc j) rtt e = rw (e, same_result_self rtt) (omega arith)
