-- ===== src/Health/Verdict.antt =====
-- The verdict of `put` on an interface, and its mark for a change.
use vyatta_wanloadbalance.Common.{
  ℕ, suc, ◌+◌, ◌%◌, ◌≤◌, ◌≡◌, ap, ◌∙◌, ◌↔◌, Bool, true, false, ◌||◌, List, ◌∷◌, ℤ, minus_one, eq_ℤ,
  arith, take, length, leb, not, if◌then◌else◌,
}
use vyatta_wanloadbalance.Data.{Health}
use vyatta_wanloadbalance.Ring.{buffer_size, push}
use vyatta_wanloadbalance.Ring.Window.{run_length}
use vyatta_wanloadbalance.Ring.Replay.{replay, results_of, push-replay_decides}
use vyatta_wanloadbalance.Health.{put}

-- The count that a result is measured against.
abbrev pub threshold : ℤ → Health → ℕ
threshold rtt h = if eq_ℤ rtt minus_one then h.failure_ct else h.success_ct

-- What a result speaks for.
abbrev pub verdict : ℤ → Bool
verdict rtt = if eq_ℤ rtt minus_one then false else true

abbrev pub differ : Bool → Bool → Bool
differ true b = not b
differ false b = b

leb_cong : (t c r : ℕ) → (t ≤ c) ↔ (t ≤ r) → leb t c ≡ leb t r
leb_cong t c r e = ground arith

module _ (beyond : ℕ → ℤ) (now : ℕ) (rtt : ℤ) (h : Health) where
  -- `put` takes the verdict of the result if the count of like results reaches the threshold, and
  -- keeps the old verdict otherwise.
  pub is_active-put : (put beyond now rtt h).is_active ≡ (
      if leb (threshold rtt h) (push beyond now rtt h.hresults).0 then verdict rtt else h.is_active)
  unfolding put
  is_active-put = ground arith

  -- The mark for a change is set if the verdict is another one after `put`, and is kept
  -- otherwise; `put` never clears it.
  pub state_changed-put :
      (put beyond now rtt h).state_changed
      ≡ (h.state_changed || differ (put beyond now rtt h).is_active h.is_active)
  unfolding put
  state_changed-put = ground arith

  -- `put` leaves the configuration and the address of the interface alone, and pushes the result.
  pub put_frame :
      let h' = put beyond now rtt h in
      (h'.hresults ≡ (push beyond now rtt h.hresults).1)
      × (h'.success_ct ≡ h.success_ct)
      × (h'.failure_ct ≡ h.failure_ct)
      × (h'.nexthop ≡ h.nexthop)
      × (h'.dhcp_nexthop ≡ h.dhcp_nexthop)
      × (h'.interface ≡ h.interface)
      × (h'.interface_index ≡ h.interface_index)
      × (h'.address ≡ h.address)
      × (h'.test_coll ≡ h.test_coll)
      × (h'.test_iter ≡ h.test_iter)
  unfolding put
  put_frame = ground arith

-- The results since the ring last started over, the newest first.
abbrev pub latest : ℤ → List (ℕ × ℤ) → List ℤ
latest rtt past = take (suc (length past % buffer_size)) (rtt ∷ results_of past)

module _ (beyond : ℕ → ℤ) (past : List (ℕ × ℤ)) (now : ℕ) (rtt : ℤ) (h : Health) where
  -- For an interface whose ring has recorded the results `past`, and a threshold that is at most
  -- one more than the number of results since the ring last started over: `put` takes the verdict
  -- of the new result exactly if so many of the latest results, the new one included, are of its
  -- kind, and keeps the old verdict otherwise.
  pub put_debounces :
      h.hresults ≡ replay beyond past
      → threshold rtt h ≤ length past % buffer_size + 1
      → (put beyond now rtt h).is_active ≡ (
          if leb (threshold rtt h) (run_length rtt (latest rtt past))
          then verdict rtt
          else h.is_active)
  put_debounces e t =
      is_active-put beyond now rtt h
      ∙ rw e (
          ap (λ b. if b then verdict rtt else h.is_active)
            (leb_cong _ _ _ (push-replay_decides beyond past now rtt (threshold rtt h) t)))
