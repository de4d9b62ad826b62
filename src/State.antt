-- ===== src/State.antt =====
-- src/lbdata.cc: the operations of `LBData` on the health of all interfaces.
pub mod Changes
pub mod Lease
use vyatta_wanloadbalance.Common.{
  ℕ, Bool, true, false, List, [], ◌∷◌, ◌++◌, Option, none, some, Text, Map, lit, find, insert,
  map_values, text_key, text_eq, if◌then◌else◌,
}
use vyatta_wanloadbalance.Data.{Data, Health}

-- `LBData::is_active`.
unfoldable pub is_active : Data → Text → Bool
is_active d iface = elim (find iface d.iface_health_coll) [ none ↦ false | some h ↦ h.is_active ]

unfoldable pub state_name : Bool → Text
unfolding lit
state_name active = if active then lit "ACTIVE" else lit "FAILED"

-- The loop of `LBData::state_changed` that fills `coll`, from the entries not yet visited.
unfoldable pub report : Map Text Health → Map Text Text → Map Text Text
unfolding insert
report [] coll = coll
report ((iface, h) ∷ rest) coll =
    report rest (if h.state_changed then insert iface (state_name h.is_active) coll else coll)

-- Its write to `_last_time_state_changed`. `clock iface` is the time that `gettimeofday` answers
-- when the loop is at that interface.
unfoldable pub stamp : (Text → ℕ) → Text → Health → Health
stamp clock iface h =
    if h.state_changed then record h { last_time_state_changed = clock iface } else h

-- `LBData::state_changed`: the interfaces that are marked as changed with the name of their state.
unfoldable pub state_changed : (Text → ℕ) → Data → Map Text Text × Data
unfolding report stamp map_values
state_changed clock d = (
  report d.iface_health_coll [],
  record d { iface_health_coll = map_values (stamp clock) d.iface_health_coll },
)

-- `LBData::reset_state_changed`.
unfoldable pub reset_state_changed : Data → Data
unfolding map_values
reset_state_changed d = record d {
  iface_health_coll = map_values (λ _ h. record h { state_changed = false }) d.iface_health_coll;
}
