-- ===== src/Examples/Malformed.antt =====
-- A configuration that ends too early.
use vyatta_wanloadbalance.Common.{
  ℕ, ◌≡◌, ◌≢◌, refl, true, false, List, [], ◌∷◌, Option, none, some, Text, lit, lower, to_lower,
  find, insert, map_values, compare_text, text_eq, ◌+ℤ◌, ◌-ℤ◌, text_key, arith,
}
use vyatta_wanloadbalance.Data.{new_data, new_health, new_history, new_test}
use vyatta_wanloadbalance.State.Lease.{fgets_lines, fgets_from, prepend, c_string, c_strings}
use vyatta_wanloadbalance.StrProc.{
  str_proc, tabs_to_spaces, remove_newline, mark_separators, collect, drop_marks, first_word,
  after_word,
}
use vyatta_wanloadbalance.PathTest.{has_test}
use vyatta_wanloadbalance.Factory.{DataFactory, new_factory}
use vyatta_wanloadbalance.Factory.Healths.{process_health, process_health_interface}
use vyatta_wanloadbalance.Factory.Process.{process, process_in_health}
use vyatta_wanloadbalance.Factory.Load.{
  load, start, empty_path, read_lines, read_line, before_hash, read_symbols, read_symbol, value_of,
  has_quote, write_path, default_test, finish,
}
use vyatta_wanloadbalance.Factory.Loaded.Depth.{occurrences, occurrences_in}
use vyatta_wanloadbalance.PathTest.{construct_tests}
use vyatta_wanloadbalance.Probe.{new_engine}
use vyatta_wanloadbalance.Decision.Setup.{init}
use vyatta_wanloadbalance.Main.{
  startup, running, checking, Args, defaults, parse_option, parse_options,
}
use vyatta_wanloadbalance.Main.Malformed.{unbalanced_runs}
use vyatta_wanloadbalance.Examples.Fixtures.{fractions, quiet, started}
use vyatta_wanloadbalance.Examples.Daemon.{zero_memory, tests}

-- `health {`, on a line of its own.
abbrev cut_off : Text
cut_off = 104 ∷ 101 ∷ 97 ∷ 108 ∷ 116 ∷ 104 ∷ 32 ∷ 123 ∷ 10 ∷ []

left : DataFactory
left = elim (load (some cut_off) new_factory) [ none ↦ new_factory | some r ↦ r.1 ]

rejected : load (some cut_off) new_factory ≡ some (false, left)
unfolding load start empty_path read_lines read_line before_hash read_symbols read_symbol value_of
    has_quote write_path default_test finish process process_in_health process_health
    process_health_interface str_proc tabs_to_spaces remove_newline mark_separators collect
    drop_marks first_word after_word fgets_lines fgets_from prepend c_string c_strings new_data
    new_health new_history new_test lit lower to_lower find insert map_values compare_text text_eq
    left new_factory ◌+ℤ◌ ◌-ℤ◌
rejected = refl

no_tests : has_test left.lb_data.iface_health_coll ≡ false
unfolding has_test load start empty_path read_lines read_line before_hash read_symbols read_symbol
    value_of has_quote write_path default_test finish process process_in_health process_health
    process_health_interface str_proc tabs_to_spaces remove_newline mark_separators collect
    drop_marks first_word after_word fgets_lines fgets_from prepend c_string c_strings new_data
    new_health new_history new_test lit lower to_lower find insert map_values compare_text text_eq
    left new_factory ◌+ℤ◌ ◌-ℤ◌
no_tests = refl

one_brace :
    occurrences_in (lit "{") (fgets_lines cut_off) ≢ occurrences_in (lit "}") (fgets_lines cut_off)
unfolding occurrences_in occurrences str_proc tabs_to_spaces remove_newline mark_separators collect
    drop_marks first_word after_word fgets_lines fgets_from prepend c_string c_strings lit
    compare_text text_eq before_hash
one_brace e = let e' : ◌≡◌ {A = ℕ} 1 0 = e in absurd (omega (e', arith))

abbrev named : List (ℕ × Text)
named = (b'f', b'c' ∷ []) ∷ []

abbrev args : Args
args = record defaults { c_file = b'c' ∷ [] }

abbrev one_file : Text → Option Text
one_file path = some cut_off

parsed : parse_options named defaults ≡ some args
unfolding parse_options parse_option
parsed = refl

built : construct_tests tests left.lb_data (new_engine, 10) ≡ some (new_engine, 10)
unfolding construct_tests
built = rw no_tests refl

in_earnest : args.config_debug_mode ≡ false
unfolding defaults
in_earnest = refl

unbalanced_runs_example :
    (false ≡ false)
    × (startup fractions quiet zero_memory tests named one_file true started (new_engine, 10)
        ≡ some (
            running (record {
              stage = checking;
              lb = record { lbdata_factory = left; lbdata = (init quiet left.lb_data started).0 };
              check_path = false;
              shell = (init quiet left.lb_data started).1;
              world = (new_engine, 10);
              status = none;
            })))
unbalanced_runs_example =
    unbalanced_runs fractions quiet zero_memory tests named one_file started (new_engine, 10)
      (new_engine, 10) args cut_off false left parsed refl in_earnest refl one_brace rejected built
