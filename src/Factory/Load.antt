-- ===== src/Factory/Load.antt =====
-- src/lbdatafactory.cc: `LBDataFactory::load`, the loop over the lines of the configuration file.
use vyatta_wanloadbalance.Common.{
  ℕ, zero, suc, ◌==◌, Bool, true, false, not, ◌&&◌, ◌||◌, List, [], ◌∷◌, Option, none, some, Text,
  ℤ, pos, negsuc, ◌+ℤ◌, ◌-ℤ◌, eq_ℤ, ltb_ℤ, ltb, set, insert, map_values, lit, is_empty, text_eq,
  int_key, text_key, if◌then◌else◌,
}
use vyatta_wanloadbalance.Data.{Health, ping, new_test}
use vyatta_wanloadbalance.State.Lease.{fgets_lines}
use vyatta_wanloadbalance.StrProc.{str_proc}
use vyatta_wanloadbalance.Factory.{DataFactory}
use vyatta_wanloadbalance.Factory.Process.{process}

-- `line.substr(0, line.find("#"))`.
unfoldable pub before_hash : Text → Text
before_hash [] = []
before_hash (c ∷ cs) = if c == b'#' then [] else c ∷ before_hash cs

unfoldable pub has_quote : Text → Bool
has_quote [] = false
has_quote (c ∷ cs) = c == b'"' || has_quote cs

unfoldable pub after_quote : Text → Text
after_quote [] = []
after_quote (c ∷ cs) = if c == b'"' then cs else after_quote cs

-- A text up to its last quote.
unfoldable pub before_last_quote : Text → Text
unfolding has_quote
before_last_quote [] = []
before_last_quote (c ∷ cs) =
    if has_quote (c ∷ cs) then if has_quote cs then c ∷ before_last_quote cs else [] else []

-- The value on a line: what stands between the first and the last quote, or behind a single one;
-- without quotes the symbol.
unfoldable pub value_of : Text → Text → Text
unfolding has_quote after_quote before_last_quote
value_of line symbol =
    let rest = after_quote line in
    if has_quote line then if has_quote rest then before_last_quote rest else rest else symbol

-- `path` has this many entries.
abbrev pub path_size : ℕ
path_size = 32

-- `path[depth] = text`; outside of the vector it is undefined behaviour.
unfoldable pub write_path : ℤ → Text → List Text → Option (List Text)
write_path (pos i) text path = if ltb i path_size then some (set path i text) else none
write_path (negsuc i) text path = none

-- The local variables of `load` within a line.
pub record Place : Type 0 where
  pub path : List Text
  pub depth : ℤ
  pub key : Text
  pub value : Text

-- One round of the loop over the tokens.
unfoldable pub read_symbol : Text → Text → Place → Option Place
read_symbol line symbol p =
    if text_eq symbol (lit "{")
    then some (record p { depth = p.depth +ℤ pos 1 })
    else if text_eq symbol (lit "}")
    then elim (write_path p.depth [] p.path) [
      | none ↦ none
      | some path ↦ some (record p { path = path; depth = p.depth -ℤ pos 1 })
    ]
    else let key = if is_empty p.key then symbol else p.key in
      let fresh = not (is_empty p.key) && is_empty p.value in
      let value = if fresh then value_of line symbol else p.value in
      elim (write_path p.depth key p.path) [
        | none ↦ none
        | some path ↦ some (record p { path = path; key = key; value = value })
      ]

unfoldable pub read_symbols : Text → List Text → Place → Option Place
read_symbols line [] p = some p
read_symbols line (symbol ∷ symbols) p = elim (read_symbol line symbol p) [
  | none ↦ none
  | some p' ↦ read_symbols line symbols p'
]

-- What the loop over the lines keeps.
pub record Reader : Type 0 where
  pub path : List Text
  pub depth : ℤ
  pub factory : DataFactory

-- One round of it, up to the check of the depth.
unfoldable pub read_line : Text → Reader → Option Reader
unfolding before_hash
read_line text r =
    let line = before_hash text in
    let tokens = str_proc line b' ' in
    let begin : Place = record { path = r.path; depth = r.depth; key = []; value = [] } in
    elim (read_symbols line tokens begin) [
      | none ↦ none
      | some p ↦
          if is_empty tokens
          then some (record { path = p.path; depth = p.depth; factory = r.factory })
          else elim (process p.path p.depth p.key p.value r.factory) [
            | none ↦ none
            | some f ↦ some (record { path = p.path; depth = p.depth; factory = f })
          ]
    ]

-- `depth > 31 || depth < 0`.
abbrev pub is_malformed : ℤ → Bool
is_malformed depth = ltb_ℤ (pos 31) depth || ltb_ℤ depth (pos 0)

-- The default test of an interface that has none.
unfoldable pub default_test : Health → Health
default_test h =
    if is_empty h.test_coll then record h { test_coll = insert (pos 1) (new_test ping) [] } else h

unfoldable pub finish : DataFactory → DataFactory
finish f = record f {
  lb_data = record f.lb_data {
    iface_health_coll = map_values (λ _ h. default_test h) f.lb_data.iface_health_coll;
  };
}

-- The loop over the lines and what follows it: the result of `load`, and what it leaves behind.
unfoldable pub read_lines : List Text → Reader → Option (Bool × DataFactory)
unfolding read_line finish
read_lines [] r =
    if eq_ℤ r.depth (pos 0) then some (true, finish r.factory) else some (false, r.factory)
read_lines (text ∷ texts) r = elim (read_line text r) [
  | none ↦ none
  | some r' ↦ if is_malformed r'.depth then some (false, r'.factory) else read_lines texts r'
]

unfoldable pub empty_path : ℕ → List Text
empty_path zero = []
empty_path (suc n) = [] ∷ empty_path n

unfoldable pub start : DataFactory → Reader
start f = record { path = empty_path path_size; depth = pos 0; factory = f }

-- `LBDataFactory::load`, given the content of the file, if it can be opened.
unfoldable pub load : Option Text → DataFactory → Option (Bool × DataFactory)
unfolding read_lines
load none f = some (false, f)
load (some content) f = read_lines (fgets_lines content) (start f)
