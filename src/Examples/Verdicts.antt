-- ===== src/Examples/Verdicts.antt =====
-- Results, verdicts and reports.
use mathlib.Core.Option
use vyatta_wanloadbalance.Common.{
  ℕ, suc, ◌%◌, ◌≤◌, ◌<◌, ◌≡◌, ◌↔◌, refl, false, List, [], ◌∷◌, some, none, ℤ, pos, minus_one, arith,
  find, take, length, leb, if◌then◌else◌, text_key, IsSorted, compare_text,
}
use vyatta_wanloadbalance.Data.{Health, new_history}
use vyatta_wanloadbalance.Ring.{buffer_size, push}
use vyatta_wanloadbalance.Ring.Push.{IsRing, push_bounds}
use vyatta_wanloadbalance.Ring.Window.{run_length}
use vyatta_wanloadbalance.Ring.Overread.{push_overreads}
use vyatta_wanloadbalance.Ring.Replay.{replay, results_of, push-replay_decides}
use vyatta_wanloadbalance.Health.{put}
use vyatta_wanloadbalance.Health.Verdict.{
  threshold, verdict, differ, latest, is_active-put, put_frame, put_debounces,
}
use vyatta_wanloadbalance.State.{state_changed, state_name}
use vyatta_wanloadbalance.State.Changes.{
  entry_text, changed_at, tested, unmarked, state_changed_reports, state_changed-tested,
}
use vyatta_wanloadbalance.Examples.Fixtures.{eth0, eth1, answered, up, three}

-- A zero behind the vector.
abbrev nothing : ℕ → ℤ
nothing _ = pos 0

-- The fourth minute: two answers and then a failure.
abbrev lost : List (ℕ × ℤ)
lost = (3, minus_one) ∷ (2, pos 7) ∷ (1, pos 5) ∷ []

new_history-IsRing : IsRing new_history
unfolding new_history
new_history-IsRing = record { full = refl }

push_bounds_example :
    (0 < (push nothing 1 (pos 5) new_history).0)
    × ((push nothing 1 (pos 5) new_history).0 ≤ buffer_size)
push_bounds_example = push_bounds nothing 1 (pos 5) new_history new_history-IsRing

answered-IsRing : IsRing answered
answered-IsRing = record { full = refl }

push_overreads_example :
    ((push (λ _. pos 5) 1 (pos 5) new_history).0 ≡ buffer_size)
    × ((push (λ _. minus_one) 1 (pos 5) new_history).0 ≡ 1)
unfolding new_history run_length
push_overreads_example =
    push_overreads 1 (pos 5) new_history minus_one new_history-IsRing (ground arith) refl refl

push-replay_decides_example : (2 ≤ (push nothing 4 minus_one (replay nothing lost)).0) ↔ (
    2 ≤ run_length minus_one (take (suc (length lost % buffer_size)) (minus_one ∷ results_of lost)))
push-replay_decides_example = push-replay_decides nothing lost 4 minus_one 2 (ground arith)

is_active-put_example : (put nothing 4 minus_one (up 0 eth0)).is_active ≡ (
    if leb (threshold minus_one (up 0 eth0)) (push nothing 4 minus_one (up 0 eth0).hresults).0
    then verdict minus_one
    else (up 0 eth0).is_active)
is_active-put_example = is_active-put nothing 4 minus_one (up 0 eth0)

put_frame_example :
    let h = up 0 eth0 in
    let h' = put nothing 4 minus_one h in
    (h'.hresults ≡ (push nothing 4 minus_one h.hresults).1)
    × (h'.success_ct ≡ h.success_ct)
    × (h'.failure_ct ≡ h.failure_ct)
    × (h'.nexthop ≡ h.nexthop)
    × (h'.dhcp_nexthop ≡ h.dhcp_nexthop)
    × (h'.interface ≡ h.interface)
    × (h'.interface_index ≡ h.interface_index)
    × (h'.address ≡ h.address)
    × (h'.test_coll ≡ h.test_coll)
    × (h'.test_iter ≡ h.test_iter)
put_frame_example = put_frame nothing 4 minus_one (up 0 eth0)

-- An interface whose ring holds these results.
abbrev losing : Health
losing = record (up 0 eth0) { hresults = replay nothing lost }

put_debounces_example : (put nothing 4 minus_one losing).is_active ≡ (
    if leb (threshold minus_one losing) (run_length minus_one (latest minus_one lost))
    then verdict minus_one
    else losing.is_active)
put_debounces_example = put_debounces nothing lost 4 minus_one losing refl (ground arith)

-- The second failure in a row takes the interface down.
goes_down : (put nothing 4 minus_one losing).is_active ≡ false
unfolding run_length
goes_down = put_debounces_example

sorted : IsSorted three.iface_health_coll
sorted = unfold compare_text in (refl, (refl, (tt, tt)))

apart : ¬ (eth1 ≡ eth0)
apart e = absurd (ground arith)

state_changed_reports_example :
    (find eth0 (state_changed (λ _. 9) three).0 ≡ entry_text (find eth0 three.iface_health_coll))
    × (find eth0 (state_changed (λ _. 9) three).1.iface_health_coll
        ≡ Option.map (changed_at 9) (find eth0 three.iface_health_coll))
state_changed_reports_example = state_changed_reports (λ _. 9) three eth0 sorted

state_changed-tested_example :
    let h' = put nothing 4 minus_one (unmarked (up 0 eth0)) in
    (find eth0 (state_changed (λ _. 9) (tested nothing 4 minus_one eth0 three)).0 ≡ (
      if differ h'.is_active (up 0 eth0).is_active then some (state_name h'.is_active) else none))
    × (find eth1 (state_changed (λ _. 9) (tested nothing 4 minus_one eth0 three)).0 ≡ none)
state_changed-tested_example =
    state_changed-tested nothing 4 minus_one (λ _. 9) three eth0 sorted eth1 (up 0 eth0)
      (unfold find compare_text in refl) apart
