-- ===== src/Ring/Overread.antt =====
-- Counts of `push` that leave the vector.
use vyatta_wanloadbalance.Common.{
  ℕ, zero, suc, ◌+◌, ◌-◌, ◌<◌, ◌≡◌, refl, ◌∙◌, false, List, ℤ, arith, set, length, length-set,
}
use vyatta_wanloadbalance.Data.{History}
use vyatta_wanloadbalance.Ring.{buffer_size, same_result, count_same, push}
use vyatta_wanloadbalance.Ring.Window.{window, run_length, round_in, round_out, count_same_out_all}
use vyatta_wanloadbalance.Ring.Push.{IsRing, place, written, count_of_push, in_vector}

module _ (beyond : ℕ → ℤ) (results : List ℤ) (start : ℕ) (rtt : ℤ) where
  -- A run that fills the places down to 0 takes the loop past the vector.
  count_same_through :
      (j n m i ct : ℕ)
      → start < length results
      → i + j ≡ start
      → n ≡ suc j + m
      → run_length rtt (window results j) ≡ suc j
      → count_same beyond results start rtt n i ct
        ≡ count_same beyond results start rtt m (start + 1) (ct + suc j)
  unfolding count_same run_length
  count_same_through j zero m i ct h e f run = absurd (omega arith)
  count_same_through zero (suc n) m i ct h e f run =
      let same : n ≡ m = omega arith in ground (arith, round_in beyond results start rtt i 0 h e)
  count_same_through (suc j) (suc n) m i ct h e f run = ground (
    arith,
    round_in beyond results start rtt i (suc j) h e,
    count_same_through j n m (i + 1) (ct + 1) h (omega arith) (omega arith),
  )

  count_same_out_other :
      (m ct : ℕ)
      → length results ≡ buffer_size
      → ((k : ℕ) → same_result (beyond k) rtt ≡ false)
      → count_same beyond results start rtt m (start + 1) ct ≡ ct
  unfolding count_same
  count_same_out_other zero ct e other = omega arith
  count_same_out_other (suc m) ct e other =
      let far = round_out beyond results start rtt (start + 1) (omega arith) e in
      ground (arith, far, other (buffer_size + (start + 1 - start)))

module _ (now : ℕ) (rtt : ℤ) (h : History) where
  through :
      (beyond : ℕ → ℤ)
      → IsRing h
      → run_length rtt (written rtt h) ≡ suc (place h)
      → (push beyond now rtt h).0
        ≡ count_same beyond
            (set h.resp_data (place h) rtt)
            (place h)
            rtt
            (9 - place h)
            (place h + 1)
            (0 + suc (place h))
  through beyond v run =
      count_of_push beyond now rtt h
      ∙ count_same_through beyond (set h.resp_data (place h) rtt) (place h) rtt (place h)
          buffer_size (9 - place h) 0 0 (in_vector beyond now rtt h v) (omega arith) (omega arith)
          run

  -- In a ring of ten places: if the run of results like the new one reaches down to place 0 and
  -- the new one is not at place 9, the memory behind the vector decides the count. It is 10 where
  -- that memory repeats the new result, and the number of places up to the new one where it holds
  -- no result of its kind.
  pub push_overreads :
      (other : ℤ)
      → IsRing h
      → place h < 9
      → run_length rtt (written rtt h) ≡ suc (place h)
      → same_result other rtt ≡ false
      → ((push (λ _. rtt) now rtt h).0 ≡ buffer_size)
        × ((push (λ _. other) now rtt h).0 ≡ suc (place h))
  push_overreads other v low run differs =
      let results = set h.resp_data (place h) rtt in
      let full : length results ≡ buffer_size =
        omega (arith, length-set h.resp_data (place h) rtt, v.full) in
      (
        omega (
          arith,
          through (λ _. rtt) v run,
          count_same_out_all (λ _. rtt) results (place h) rtt (9 - place h) (place h + 1)
              (0 + suc (place h)) (omega arith) full (λ k. refl),
        ),
        omega (
          arith,
          through (λ _. other) v run,
          count_same_out_other (λ _. other) results (place h) rtt (9 - place h) (0 + suc (place h))
              full (λ k. differs),
        ),
      )
