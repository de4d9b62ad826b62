-- ===== src/Ring/Push.antt =====
-- `LBHealthHistory::push`: the ring it leaves, and how far its count can be trusted.
use vyatta_wanloadbalance.Common.{
  ℕ, ◌+◌, ◌-◌, ◌%◌, ◌≤◌, ◌<◌, ◌≡◌, refl, ◌↔◌, ◌⊎◌, inl, List, ℤ, arith, set, length, length-set,
  get_or-set_self, pos,
}
use native.Mathlib.Decide.{dec_le}
use vyatta_wanloadbalance.Data.{History}
use vyatta_wanloadbalance.Ring.{buffer_size, count_same, record_result, push}
use vyatta_wanloadbalance.Ring.Window.{
  window, run_length, run_length-window_pos, count_same_bound, count_same-ge, count_same-eq,
}

-- The vector has its ten places.
pub record IsRing (h : History) : Type 0 where
  pub full : length h.resp_data ≡ buffer_size

-- The place that the next push writes.
abbrev pub place : History → ℕ
place h = h.index % buffer_size

-- The results after a push, from the one just written down to place 0.
abbrev pub written : ℤ → History → List ℤ
written rtt h = window (set h.resp_data (place h) rtt) (place h)

module _ (now : ℕ) (rtt : ℤ) (h : History) where
  pub resp_data-record_result : (record_result now rtt h).resp_data ≡ set h.resp_data (place h) rtt
  unfolding record_result
  resp_data-record_result = ground arith

  pub index-record_result : (record_result now rtt h).index ≡ h.index + 1
  unfolding record_result
  index-record_result = ground arith

  record_result-IsRing : IsRing h → IsRing (record_result now rtt h)
  record_result-IsRing v =
      ground (arith, resp_data-record_result, length-set h.resp_data (place h) rtt)

module _ (beyond : ℕ → ℤ) (now : ℕ) (rtt : ℤ) (h : History) where
  pub push_state : (push beyond now rtt h).1 ≡ record_result now rtt h
  unfolding push
  push_state = refl

  -- A push keeps the ten places of a ring.
  pub push-IsRing : IsRing h → IsRing (push beyond now rtt h).1
  push-IsRing v = rw push_state (record_result-IsRing now rtt h v)

  pub count_of_push :
      (push beyond now rtt h).0
      ≡ count_same beyond (set h.resp_data (place h) rtt) (place h) rtt buffer_size 0 0
  unfolding push
  count_of_push =
      let start : (record_result now rtt h).index - 1 ≡ h.index =
        omega (arith, index-record_result now rtt h) in
      rw (resp_data-record_result now rtt h, start)

  pub in_vector : IsRing h → place h < length (set h.resp_data (place h) rtt)
  in_vector v = omega (arith, length-set h.resp_data (place h) rtt, v.full)

  count_of_push-ge : IsRing h → run_length rtt (written rtt h) ≤ (push beyond now rtt h).0
  count_of_push-ge v =
      let results = set h.resp_data (place h) rtt in
      omega (
        arith,
        count_of_push,
        count_same-ge beyond results (place h) rtt (place h) buffer_size 0 0 (in_vector v)
            (omega arith) (omega arith),
      )

  run-written_pos : IsRing h → 0 < run_length rtt (written rtt h)
  run-written_pos v =
      run_length-window_pos _ (place h) rtt
        (get_or-set_self h.resp_data (place h) rtt (pos 0) (omega (arith, v.full)))

  -- In a ring of ten places the count of `push` lies between 1 and 10, whatever the memory behind
  -- the vector holds.
  pub push_bounds :
      IsRing h → (0 < (push beyond now rtt h).0) × ((push beyond now rtt h).0 ≤ buffer_size)
  push_bounds v =
      let results = set h.resp_data (place h) rtt in
      omega (
        arith,
        count_of_push,
        count_of_push-ge v,
        run-written_pos v,
        count_same_bound beyond results (place h) rtt buffer_size 0 0,
      )

  -- In a ring of ten places, the count of `push` is the length of the run of results like the new
  -- one from the new one down to place 0, if that run ends before place 0 or the new result is at
  -- place 9.
  pub push_exact :
      IsRing h
      → (run_length rtt (written rtt h) ≤ place h) ⊎ (place h ≡ 9)
      → (push beyond now rtt h).0 ≡ run_length rtt (written rtt h)
  push_exact v short =
      let results = set h.resp_data (place h) rtt in
      omega (
        arith,
        count_of_push,
        count_same-eq beyond results (place h) rtt (place h) buffer_size 0 0 (in_vector v)
            (omega arith) (omega arith) (omega arith),
      )

  -- A threshold that does not reach past the places written so far is decided by that run alone.
  pub push_decides :
      (t : ℕ)
      → IsRing h
      → t ≤ place h + 1
      → (t ≤ (push beyond now rtt h).0) ↔ (t ≤ run_length rtt (written rtt h))
  push_decides t v inside = elim (dec_le (run_length rtt (written rtt h)) (place h)) [
    | yes short ↦ omega (arith, push_exact v (inl short))
    | no whole ↦ omega (arith, count_of_push-ge v)
  ]
