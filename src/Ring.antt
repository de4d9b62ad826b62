-- ===== src/Ring.antt =====
-- src/lbdata.cc: `LBHealthHistory`, the ring of the last ten probe results of an interface.
pub mod Window
pub mod Push
pub mod Overread
pub mod Replay
use vyatta_wanloadbalance.Common.{
  ℕ, zero, suc, ◌+◌, ◌-◌, ◌%◌, ◌^◌, Bool, true, false, ◌&&◌, ◌||◌, not, List, ℤ, minus_one, eq_ℤ,
  leb, if◌then◌else◌, get_elem?, set, Option, none, some,
}
use vyatta_wanloadbalance.Data.{History}

-- `_buffer_size`.
abbrev pub buffer_size : ℕ
buffer_size = 10

abbrev pub is_failure : ℤ → Bool
is_failure rtt = eq_ℤ rtt minus_one

-- What `_resp_data[k]` yields. `operator[]` checks no bound: past the vector it reads the memory
-- that follows, whose content the argument `beyond` stands for.
unfoldable pub read : (ℕ → ℤ) → List ℤ → ℕ → ℤ
read beyond results k = elim (get_elem? results k) [ none ↦ beyond k | some v ↦ v ]

-- The index that the i-th round reads: `start - i`, and where that is negative
-- `_buffer_size - (start - i)`.
unfoldable pub slot : ℕ → ℕ → ℕ
slot start i = if leb i start then start - i else buffer_size + (i - start)

abbrev pub same_result : ℤ → ℤ → Bool
same_result x rtt = is_failure x && is_failure rtt || not (is_failure x) && not (is_failure rtt)

-- The loop that counts results like the last one; the first argument is the number of rounds left.
unfoldable pub count_same : (ℕ → ℤ) → List ℤ → ℕ → ℤ → ℕ → ℕ → ℕ → ℕ
unfolding read slot
count_same beyond results start rtt zero i ct = ct
count_same beyond results start rtt (suc n) i ct =
    let rest = count_same beyond results start rtt n (i + 1) (ct + 1) in
    if same_result (read beyond results (slot start i)) rtt then rest else ct

-- The state that `push` leaves.
unfoldable pub record_result : ℕ → ℤ → History → History
record_result now rtt h = record stamped {
  resp_data = set stamped.resp_data (stamped.index % buffer_size) rtt;
  index = stamped.index + 1;
}
  where
    stamped : History
    stamped =
        if is_failure rtt
        then record h { last_failure = now; failure_count = (h.failure_count + 1) % 2 ^ 64 }
        else record h { last_success = now; failure_count = 0 }

-- `LBHealthHistory::push` at the time `now`.
unfoldable pub push : (ℕ → ℤ) → ℕ → ℤ → History → ℕ × History
push beyond now rtt h =
    let h' = record_result now rtt h in
    (count_same beyond h'.resp_data ((h'.index - 1) % buffer_size) rtt buffer_size 0 0, h')

-- `LBHealthHistory::get_last_resp`.
unfoldable pub get_last_resp : History → ℤ
get_last_resp h = elim (get_elem? h.resp_data 0) [ none ↦ minus_one | some v ↦ v ]
