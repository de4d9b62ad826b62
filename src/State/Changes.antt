-- ===== src/State/Changes.antt =====
-- What `state_changed` reports, and when.
use mathlib.Core.Option
use vyatta_wanloadbalance.Common.{
  ℕ, ◌≡◌, refl, sym, ◌∙◌, Bool, true, false, [], ◌∷◌, Option, none, some, Text, Map, find, insert,
  or_else, or_else-none, alter, ℤ, find-alter_self, find-alter_ne, alter-IsSorted, text_key,
  IsSorted, find-insert_self, find-insert_ne, find-map_values, insert-IsSorted, map_values-IsSorted,
  if◌then◌else◌, Bool-cases, inl, inr, kept, find-Above, key_dec, find-cons_self, find-cons_ne, lit,
}
use vyatta_wanloadbalance.Data.{Data, Health}
use vyatta_wanloadbalance.Health.{put}
use vyatta_wanloadbalance.Health.Verdict.{differ, state_changed-put}
use vyatta_wanloadbalance.State.{state_name, report, stamp, state_changed, reset_state_changed}

-- What the report holds for an interface: nothing for one that is unknown or has not changed.
abbrev pub entry : Option Health → Option Text
entry none = none
entry (some h) = if h.state_changed then some (state_name h.is_active) else none

kept-or_else : {A : Type 0} (a : A) (o : Option A) → kept a o ≡ or_else o (some a)
kept-or_else a none = refl
kept-or_else a (some b) = refl

-- What the loop has collected behind an entry.
abbrev next : Text → Health → Map Text Text → Map Text Text
next j h coll = if h.state_changed then insert j (state_name h.is_active) coll else coll

next-IsSorted :
    (j : Text) (h : Health) (coll : Map Text Text) → IsSorted coll → IsSorted (next j h coll)
next-IsSorted j h coll t = elim (Bool-cases h.state_changed) [
  | inl e ↦ rw e (insert-IsSorted j _ coll t)
  | inr e ↦ rw e t
]

find-next_ne :
    (i j : Text) (h : Health) (coll : Map Text Text)
    → ¬ (i ≡ j)
    → find i (next j h coll) ≡ find i coll
find-next_ne i j h coll ne = elim (Bool-cases h.state_changed) [
  | inl e ↦ rw e (find-insert_ne i j _ coll ne)
  | inr e ↦ rw e
]

find-next_self :
    (j : Text) (h : Health) (coll : Map Text Text)
    → IsSorted coll
    → find j (next j h coll) ≡ or_else (find j coll) (entry (some h))
find-next_self j h coll t = elim (Bool-cases h.state_changed) [
  | inl e ↦ rw e (find-insert_self j _ coll t ∙ kept-or_else _ (find j coll))
  | inr e ↦ rw e (sym (or_else-none (find j coll)))
]

-- The report's loop from any place on.
find-report :
    (iface : Text) (m : Map Text Health) (coll : Map Text Text)
    → IsSorted m
    → IsSorted coll
    → find iface (report m coll) ≡ or_else (find iface coll) (entry (find iface m))
unfolding report
find-report iface [] coll s t = unfold find in sym (or_else-none (find iface coll))
find-report iface ((j, h) ∷ m) coll s t = elim (key_dec iface j) [
  | yes e ↦
      rw (e, find-cons_self j h m)
        (find-report j m _ s.1 (next-IsSorted j h coll t)
          ∙ rw (find-Above j m s.0 s.1, or_else-none (find j (next j h coll)))
              (find-next_self j h coll t))
  | no ne ↦
      find-report iface m _ s.1 (next-IsSorted j h coll t)
      ∙ rw (find-cons_ne iface j h m ne, find-next_ne iface j h coll ne)
]

-- An interface whose mark stands has the time of its change from now on; nothing else is touched.
abbrev pub changed_at : ℕ → Health → Health
changed_at time h = record h {
  last_time_state_changed = if h.state_changed then time else h.last_time_state_changed;
}

stamp-changed_at :
    (clock : Text → ℕ) (iface : Text) (o : Option Health)
    → Option.map (stamp clock iface) o ≡ Option.map (changed_at (clock iface)) o
unfolding stamp
stamp-changed_at clock iface none = refl
stamp-changed_at clock iface (some h) =
    elim h.state_changed
      as (λ (b : Bool).
        ◌≡◌ {A = Option Health}
          (some (if b then record h { last_time_state_changed = clock iface } else h))
          (some (record h {
            last_time_state_changed = if b then clock iface else h.last_time_state_changed;
          }))) [ true ↦ refl | false ↦ refl ]

-- The same, with the names written out.
abbrev pub entry_text : Option Health → Option Text
entry_text none = none
entry_text (some h) =
    if h.state_changed then some (if h.is_active then lit "ACTIVE" else lit "FAILED") else none

entry-entry_text : (o : Option Health) → entry o ≡ entry_text o
unfolding state_name
entry-entry_text none = refl
entry-entry_text (some h) = refl

find-state_changed :
    (clock : Text → ℕ) (d : Data) (iface : Text)
    → IsSorted d.iface_health_coll
    → find iface (state_changed clock d).0 ≡ entry (find iface d.iface_health_coll)
unfolding state_changed
find-state_changed clock d iface s =
    find-report iface d.iface_health_coll [] s tt ∙ unfold find in refl

-- Where the interfaces are in order, `state_changed` reports an interface exactly if it is known
-- and marked as changed, as ACTIVE or FAILED by its present state. The time of its last change becomes the
-- time of the clock if it is marked, and stays as it was otherwise; nothing else of it changes.
pub state_changed_reports :
    (clock : Text → ℕ) (d : Data) (iface : Text)
    → IsSorted d.iface_health_coll
    → (find iface (state_changed clock d).0 ≡ entry_text (find iface d.iface_health_coll))
      × (find iface (state_changed clock d).1.iface_health_coll
          ≡ Option.map (changed_at (clock iface)) (find iface d.iface_health_coll))
unfolding state_changed
state_changed_reports clock d iface s = (
  find-state_changed clock d iface s ∙ entry-entry_text (find iface d.iface_health_coll),
  find-map_values iface (stamp clock) d.iface_health_coll
      ∙ stamp-changed_at clock iface (find iface d.iface_health_coll),
)

-- The data after one interface has been tested, at the start of whose cycle the marks were reset.
abbrev pub tested : (ℕ → ℤ) → ℕ → ℤ → Text → Data → Data
tested beyond now rtt iface d =
    let d' = reset_state_changed d in
    record d' { iface_health_coll = alter iface (put beyond now rtt) d'.iface_health_coll }

-- The marks as `reset_state_changed` leaves them.
abbrev pub unmarked : Health → Health
unmarked h = record h { state_changed = false }

find-reset :
    (i : Text) (d : Data)
    → find i (reset_state_changed d).iface_health_coll
      ≡ Option.map unmarked (find i d.iface_health_coll)
unfolding reset_state_changed
find-reset i d = find-map_values i (λ _ h. unmarked h) d.iface_health_coll

entry-unmarked : (o : Option Health) → entry (Option.map unmarked o) ≡ none
entry-unmarked none = refl
entry-unmarked (some h) = refl

module _ (beyond : ℕ → ℤ) (now : ℕ) (rtt : ℤ) (clock : Text → ℕ) (d : Data) (iface : Text)
    (s : IsSorted d.iface_health_coll) where
  report-tested :
      (i : Text)
      → find i (state_changed clock (tested beyond now rtt iface d)).0
        ≡ entry (find i (tested beyond now rtt iface d).iface_health_coll)
  report-tested i = find-state_changed clock _ i (alter-IsSorted iface _ _ sorted)
    where
      sorted : IsSorted (reset_state_changed d).iface_health_coll
      sorted = unfold reset_state_changed in map_values-IsSorted _ d.iface_health_coll s

  -- Where the interfaces are in order: within a cycle that resets the marks and then records one
  -- result for a known interface, the report names that interface exactly if the result has
  -- changed the verdict on it, with the new state, and names no other interface.
  pub state_changed-tested :
      (other : Text) (h : Health)
      → find iface d.iface_health_coll ≡ some h
      → ¬ (other ≡ iface)
      → let h' = put beyond now rtt (unmarked h) in
        (find iface (state_changed clock (tested beyond now rtt iface d)).0
          ≡ (if differ h'.is_active h.is_active then some (state_name h'.is_active) else none))
        × (find other (state_changed clock (tested beyond now rtt iface d)).0 ≡ none)
  state_changed-tested other h known ne = (
    report-tested iface
        ∙ rw
            (
              find-alter_self iface (put beyond now rtt) (reset_state_changed d).iface_health_coll,
              find-reset iface d,
              known,
              state_changed-put beyond now rtt (unmarked h),
            )
            refl,
    report-tested other
        ∙ rw
            (
              find-alter_ne other iface (put beyond now rtt)
                  (reset_state_changed d).iface_health_coll ne,
              find-reset other d,
            )
            (entry-unmarked (find other d.iface_health_coll)),
  )
