-- ===== src/Examples/Configs.antt =====
-- A configuration file with one interface.
use vyatta_wanloadbalance.Common.{
  ◌≡◌, refl, true, [], ◌∷◌, none, some, Text, lit, lower, to_lower, AllValues, find, insert,
  map_values, compare_text, text_eq, ◌+ℤ◌, ◌-ℤ◌,
}
use vyatta_wanloadbalance.Data.{new_data, new_health, new_history, new_test}
use vyatta_wanloadbalance.State.Lease.{fgets_lines, fgets_from, prepend, c_string, c_strings}
use vyatta_wanloadbalance.StrProc.{
  str_proc, tabs_to_spaces, remove_newline, mark_separators, collect, drop_marks, first_word,
  after_word,
}
use vyatta_wanloadbalance.PathTest.{has_test}
use vyatta_wanloadbalance.Factory.{DataFactory, new_factory}
use vyatta_wanloadbalance.Factory.Healths.{process_health, process_health_interface}
use vyatta_wanloadbalance.Factory.Process.{process, process_in_health}
use vyatta_wanloadbalance.Factory.Load.{
  load, start, empty_path, read_lines, read_line, before_hash, read_symbols, read_symbol, value_of,
  has_quote, write_path, default_test, finish,
}
use vyatta_wanloadbalance.Factory.Sound.{IsSound, new_factory-IsSound}
use vyatta_wanloadbalance.Factory.Loaded.{HasTest, load-IsSound, load_tests}
use vyatta_wanloadbalance.Factory.Loaded.Depth.{occurrences_in}
use vyatta_wanloadbalance.Factory.Loaded.Braces.{load_balanced}

-- `health {`, ` interface a {`, ` } }`, each on a line of its own.
abbrev pub config : Text
config =
    104 ∷ 101 ∷ 97 ∷ 108 ∷ 116 ∷ 104 ∷ 32 ∷ 123 ∷ 10 ∷ 32 ∷ 105 ∷ 110 ∷ 116 ∷ 101 ∷ 114 ∷ 102 ∷ 97
    ∷ 99 ∷ 101 ∷ 32 ∷ 97 ∷ 32 ∷ 123 ∷ 10 ∷ 32 ∷ 125 ∷ 32 ∷ 125 ∷ 10 ∷ []

-- What it leaves.
pub loaded : DataFactory
loaded = elim (load (some config) new_factory) [ none ↦ new_factory | some r ↦ r.1 ]

pub accepted : load (some config) new_factory ≡ some (true, loaded)
unfolding load start empty_path read_lines read_line before_hash read_symbols read_symbol value_of
    has_quote write_path default_test finish process process_in_health process_health
    process_health_interface str_proc tabs_to_spaces remove_newline mark_separators collect
    drop_marks first_word after_word fgets_lines fgets_from prepend c_string c_strings new_data
    new_health new_history new_test lit lower to_lower find insert map_values compare_text text_eq
    loaded new_factory ◌+ℤ◌ ◌-ℤ◌
accepted = refl

pub loaded-has_test : has_test loaded.lb_data.iface_health_coll ≡ true
unfolding has_test load start empty_path read_lines read_line before_hash read_symbols read_symbol
    value_of has_quote write_path default_test finish process process_in_health process_health
    process_health_interface str_proc tabs_to_spaces remove_newline mark_separators collect
    drop_marks first_word after_word fgets_lines fgets_from prepend c_string c_strings new_data
    new_health new_history new_test lit lower to_lower find insert map_values compare_text text_eq
    loaded new_factory ◌+ℤ◌ ◌-ℤ◌
loaded-has_test = refl

load-IsSound_example : IsSound loaded.lb_data
load-IsSound_example =
    load-IsSound (some config) new_factory loaded true new_factory-IsSound accepted

load_tests_example : AllValues HasTest loaded.lb_data.iface_health_coll
load_tests_example = load_tests (some config) new_factory loaded new_factory-IsSound accepted

load_balanced_example :
    occurrences_in (lit "{") (fgets_lines config) ≡ occurrences_in (lit "}") (fgets_lines config)
load_balanced_example = load_balanced config new_factory loaded accepted
