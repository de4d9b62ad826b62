-- ===== src/Health.antt =====
-- src/lbdata.cc: `LBHealth::put`, the verdict on an interface after each health test.
pub mod Verdict
use vyatta_wanloadbalance.Common.{ℕ, Bool, true, false, ℤ, minus_one, eq_ℤ, leb, if◌then◌else◌}
use vyatta_wanloadbalance.Data.{Health}
use vyatta_wanloadbalance.Ring.{push}

-- `beyond` is the memory behind the result vector and `now` the time, as for `push`.
unfoldable pub put : (ℕ → ℤ) → ℕ → ℤ → Health → Health
put beyond now rtt h =
    let (activity_ct, hresults) = push beyond now rtt h.hresults in
    let h' = record h { hresults = hresults } in
    if eq_ℤ rtt minus_one
    then if leb h.failure_ct activity_ct
      then record h' {
        is_active = false;
        state_changed = if h.is_active then true else h.state_changed;
      }
      else h'
    else if leb h.success_ct activity_ct
    then record h' {
      is_active = true;
      state_changed = if h.is_active then h.state_changed else true;
    }
    else h'
