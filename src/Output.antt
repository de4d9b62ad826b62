-- ===== src/Output.antt =====
-- src/lboutput.cc: `LBOutput`, the status file and its text.
pub mod Durations
use vyatta_wanloadbalance.Common.{
  ℕ, ◌+◌, ◌-◌, ◌*◌, ◌/◌, ◌%◌, ◌^◌, ◌==◌, Bool, true, false, ◌&&◌, List, [], ◌∷◌, ◌++◌, Text, Map, ℤ,
  Option, none, some, ltb, lit, decimal, is_empty, text_eq, if◌then◌else◌,
}
use vyatta_wanloadbalance.Data.{Data, Health, Test, TestState, k_none, k_success, k_failure}

-- One unit of a duration, which is left out if it is zero.
unfoldable pub unit_text : ℕ → ℕ → Text
unit_text n letter = if ltb 0 n then decimal n ++ letter ∷ [] else []

-- What `diff_t` is after a unit.
unfoldable pub left_over : ℕ → ℕ → ℕ
left_over diff unit = if ltb 0 (diff / unit) then diff - diff / unit * unit else diff

-- A number of seconds in days, hours, minutes and seconds.
unfoldable pub duration : ℕ → Text
unfolding unit_text
duration diff =
    let diff1 = left_over diff 86400 in
    let diff2 = left_over diff1 3600 in
    let diff3 = left_over diff2 60 in
    unit_text (diff / 86400) b'd'
    ++ (unit_text (diff1 / 3600) b'h'
        ++ (unit_text (diff2 / 60) b'm' ++ (decimal diff3 ++ b's' ∷ [])))

-- The seconds since the last success; the clock is compared as an `unsigned`, and a clock that has
-- been set back gives 0.
unfoldable pub success_diff : ℕ → ℕ → ℕ
success_diff cur last = if ltb 0 last && ltb last (cur % 2 ^ 32) then cur - last else 0

-- The seconds since the last failure, as an `unsigned long`.
unfoldable pub failure_diff : ℕ → ℕ → ℕ
failure_diff cur last = if ltb 0 last then (cur + 2 ^ 64 - last) % 2 ^ 64 else 0

unfoldable pub success_time : ℕ → ℕ → Text
unfolding success_diff duration
success_time cur last =
    if last == 0 then lit "n/a" ++ 9 ∷ 9 ∷ [] else duration (success_diff cur last) ++ 9 ∷ []

unfoldable pub failure_time : ℕ → ℕ → Text
unfolding failure_diff duration
failure_time cur last =
    if last == 0 then lit "n/a" ++ 9 ∷ 9 ∷ [] else duration (failure_diff cur last) ++ 9 ∷ []

unfoldable pub state_mark : TestState → Text
state_mark k_none = lit " "
state_mark k_failure = lit "-"
state_mark k_success = lit "+"

-- The line of each test. The target that the code computes there is not used.
test_lines : Map ℤ Test → Text
unfolding state_mark
test_lines [] = []
test_lines ((num, t) ∷ rest) =
    lit "  " ++ (state_mark t.state ++ (lit "Test:  " ++ (t.status_line ++ 10 ∷ test_lines rest)))

-- What the file says of an interface. `ctime` formats a time, with a line feed at its end.
unfoldable pub entry_text : (ℕ → Text) → ℕ → Text → Health → Text
unfolding test_lines success_time failure_time
entry_text ctime cur iface h =
    lit "Interface:  "
    ++ (iface
        ++ 10
          ∷ (lit "  Status:  "
              ++ ((if h.is_active then lit "active" else lit "failed")
                  ++ 10
                    ∷ (lit "  Last Status Change:  "
                        ++ (ctime h.last_time_state_changed
                            ++ (test_lines h.test_coll
                                ++ (lit "    Last Interface Success:  "
                                    ++ (success_time cur h.hresults.last_success
                                        ++ 10
                                          ∷ (lit "    Last Interface Failure:  "
                                              ++ (failure_time cur h.hresults.last_failure
                                                  ++ 10
                                                    ∷ (lit "    # Interface Failure(s):  "
                                                        ++ (decimal h.hresults.failure_count
                                                            ++ 10 ∷ 10 ∷ []))))))))))))

unfoldable pub write : (ℕ → Text) → ℕ → Map Text Health → Text
unfolding entry_text
write ctime cur [] = []
write ctime cur ((iface, h) ∷ rest) = entry_text ctime cur iface h ++ write ctime cur rest

-- The status file: its content, if it is there.
abbrev pub StatusFile : Type 0
StatusFile = Option Text

-- `LBOutput::write` on the file, where `opened` is whether it can be opened.
unfoldable pub write_file : (ℕ → Text) → ℕ → Bool → Map Text Health → StatusFile → StatusFile
unfolding write
write_file ctime cur opened coll file = if opened then some (write ctime cur coll) else file

-- `LBOutput::shutdown`, which unlinks it.
unfoldable pub shutdown : StatusFile → StatusFile
shutdown file = none
