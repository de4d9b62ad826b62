-- ===== src/Ring/Replay.antt =====
-- The ring against the whole history of an interface's results.
use vyatta_wanloadbalance.Common.{
  ℕ, zero, suc, ◌+◌, ◌%◌, ◌≤◌, ◌<◌, ◌≡◌, refl, ap, ◌∙◌, ◌↔◌, List, [], ◌∷◌, ℤ, arith, set, length,
  get_or, get_or-set_self, get_or-set_ne, take, pos,
}
use native.Mathlib.Decide.{ℕ_discrete}
use vyatta_wanloadbalance.Data.{History, new_history}
use vyatta_wanloadbalance.Ring.{buffer_size, push}
use vyatta_wanloadbalance.Ring.Window.{window, run_length}
use vyatta_wanloadbalance.Ring.Push.{
  IsRing, place, written, push_decides, push_state, push-IsRing, resp_data-record_result,
  index-record_result,
}

module _ (beyond : ℕ → ℤ) where
  -- The history after pushes at some times, the latest first.
  pub replay : List (ℕ × ℤ) → History
  replay [] = new_history
  replay ((now, rtt) ∷ past) = (push beyond now rtt (replay past)).1

  pub replay-IsRing : (past : List (ℕ × ℤ)) → IsRing (replay past)
  unfolding replay new_history
  replay-IsRing [] = record { full = refl }
  replay-IsRing ((now, rtt) ∷ past) = push-IsRing beyond now rtt (replay past) (replay-IsRing past)

  index-replay : (past : List (ℕ × ℤ)) → (replay past).index ≡ length past
  unfolding replay new_history
  index-replay [] = refl
  index-replay ((now, rtt) ∷ past) =
      rw (push_state beyond now rtt (replay past))
        (omega (arith, index-record_result now rtt (replay past), index-replay past))

window-set :
    (results : List ℤ) (p j : ℕ) (rtt : ℤ) → j < p → window (set results p rtt) j ≡ window results j
window-set results p zero rtt h =
    ap (λ x. x ∷ []) (get_or-set_ne results p 0 rtt (pos 0) (omega arith))
window-set results p (suc j) rtt h =
    rw (get_or-set_ne results p (suc j) rtt (pos 0) (omega arith))
      (ap (λ xs. get_or results (suc j) (pos 0) ∷ xs) (window-set results p j rtt (omega arith)))

window-set_first :
    (results : List ℤ) (p : ℕ) (rtt : ℤ)
    → p < length results
    → p ≡ 0
    → window (set results p rtt) p ≡ rtt ∷ []
window-set_first results p rtt h e =
    rw e (ap (λ x. x ∷ []) (get_or-set_self results 0 rtt (pos 0) (omega arith)))

window-set_next :
    (results : List ℤ) (p q : ℕ) (rtt : ℤ)
    → p < length results
    → p ≡ suc q
    → window (set results p rtt) p ≡ rtt ∷ window results q
window-set_next results p q rtt h e =
    rw (e, get_or-set_self results (suc q) rtt (pos 0) (omega arith))
      (ap (λ xs. rtt ∷ xs) (window-set results (suc q) q rtt (omega arith)))

abbrev pub results_of : List (ℕ × ℤ) → List ℤ
results_of [] = []
results_of ((now, rtt) ∷ past) = rtt ∷ results_of past

module _ (beyond : ℕ → ℤ) where
  place-replay : (past : List (ℕ × ℤ)) → place (replay beyond past) ≡ length past % buffer_size
  place-replay past = ap (λ n. n % buffer_size) (index-replay beyond past)

  place_in :
      (past : List (ℕ × ℤ)) → place (replay beyond past) < length (replay beyond past).resp_data
  place_in past = omega (arith, (replay-IsRing beyond past).full)

  -- The results that an earlier push wrote, seen from the next one.
  window-replay :
      (now : ℕ) (r : ℤ) (past : List (ℕ × ℤ))
      → window (replay beyond ((now, r) ∷ past)).resp_data (length past % buffer_size)
        ≡ written r (replay beyond past)
  unfolding replay
  window-replay now r past =
      rw
        (
          push_state beyond now r (replay beyond past),
          resp_data-record_result now r (replay beyond past),
          place-replay past,
        )
        refl

  written-replay :
      (past : List (ℕ × ℤ)) (rtt : ℤ)
      → written rtt (replay beyond past)
        ≡ take (suc (length past % buffer_size)) (rtt ∷ results_of past)
  written-replay [] rtt = window-set_first _ _ rtt (place_in []) (place-replay [])
  written-replay ((now, r) ∷ past) rtt = elim (ℕ_discrete (suc (length past) % buffer_size) 0) [
    | yes e ↦
        rw e (
          window-set_first _ _ rtt (place_in ((now, r) ∷ past))
            (place-replay ((now, r) ∷ past) ∙ e))
    | no ne ↦
        let next : suc (length past) % buffer_size ≡ suc (length past % buffer_size) =
          omega arith in
        rw next (
          window-set_next _ _ (length past % buffer_size) rtt (place_in ((now, r) ∷ past))
            (place-replay ((now, r) ∷ past) ∙ next)
          ∙ ap (λ xs. rtt ∷ xs) (window-replay now r past ∙ written-replay past r))
  ]

  -- For a ring that has recorded any past results from its construction on, and a threshold that
  -- is at most one more than the number of results since the ring last started over: the count of
  -- the next push reaches the threshold exactly if the results since then, with the new one
  -- first, begin with a run of so many like the new one. The memory behind the vector does not
  -- matter.
  pub push-replay_decides :
      (past : List (ℕ × ℤ)) (now : ℕ) (rtt : ℤ) (t : ℕ)
      → t ≤ length past % buffer_size + 1
      → (t ≤ (push beyond now rtt (replay beyond past)).0)
        ↔ (t ≤ run_length rtt (take (suc (length past % buffer_size)) (rtt ∷ results_of past)))
  push-replay_decides past now rtt t h = rw (← written-replay past rtt) (
      push_decides beyond now rtt (replay beyond past) t (replay-IsRing beyond past)
        (omega (arith, place-replay past)))
