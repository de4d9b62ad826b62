-- ===== src/Decision/Paths/Table.antt =====
-- The source NAT as a table of rules: what `update_paths` does to the chain WANLOADBALANCE.
pub mod Moves
pub mod Kept
pub mod Drift
use Prim.Native.Nat.{bit_or}
use mathlib.Core.Path.{subst}
use mathlib.Core.List.{append-nil}
use vyatta_wanloadbalance.Common.{
  ℕ, zero, suc, ◌+◌, ◌-◌, ◌<◌, ◌==◌, ◌≡◌, refl, sym, ap, ◌∙◌, Bool, true, false, List, [], ◌∷◌,
  ◌++◌, not, ◌&&◌, Option, none, some, Text, Map, text_eq, text_eq_iff, text_eq_refl, is_empty,
  arith, Bool-cases, inl, inr, if◌then◌else◌,
}
use vyatta_wanloadbalance.Data.{Data, Health}
use vyatta_wanloadbalance.Decision.Shell.{
  Command, add_snat, delete_snat, snat_rule, System, Shell, execute, render,
}
use vyatta_wanloadbalance.Decision.Paths.{
  table_of, default_route, show_routes, contains, insert_default, fetch_iface_addr, update_route,
  update_snat, update_path, update_each, update_paths,
}

-- How often a rule stands in a table.
abbrev pub count : Text → List Text → ℕ
count rule [] = 0
count rule (r ∷ rs) = (if text_eq rule r then 1 else 0) + count rule rs

-- A table without the first rule that is this one.
unfoldable pub remove : Text → List Text → List Text
remove rule [] = []
remove rule (r ∷ rs) = let rest = remove rule rs in if text_eq rule r then rs else r ∷ rest

pub count-append :
    (rule : Text) (xs ys : List Text) → count rule (xs ++ ys) ≡ count rule xs + count rule ys
count-append rule [] ys = omega arith
count-append rule (x ∷ xs) ys = ground (arith, count-append rule xs ys)

count-tail :
    (rule r : Text) (rs : List Text)
    → text_eq rule r ≡ false
    → 0 < count rule (r ∷ rs)
    → 0 < count rule rs
count-tail rule r rs other has = ground arith

pub count-remove :
    (q rule : Text) (rs : List Text)
    → 0 < count rule rs
    → count q rs ≡ count q (remove rule rs) + (if text_eq q rule then 1 else 0)
unfolding remove
count-remove q rule [] has = absurd (omega arith)
count-remove q rule (r ∷ rs) has = elim (Bool-cases (text_eq rule r)) [
  | inl same ↦ rw (same, (text_eq_iff rule r).0 same) (omega arith)
  | inr other ↦ rw other (omega (count-remove q rule rs (count-tail rule r rs other has), arith))
]

-- The status that `execute` answers.
abbrev pub status : Option (ℕ × Text) → ℕ
status none = 0
status (some (st, output)) = st

-- A system whose iptables keeps the rules of the chain in a list: a rule is appended, a deletion
-- takes the first rule that is the same, and fails with exit status 1 if there is none. Nothing else
-- that `update_paths` asks of the system changes the chain.
pub record NatTable (sys : System) : Type 0 where
  pub table : sys.World → List Text
  pub adds :
      (mark addr : Text) (w : sys.World)
      → is_empty addr ≡ false
      → let (answer, w') = sys.popen (render (add_snat mark addr)) false w in
        (status answer ≡ 0) × (table w' ≡ table w ++ snat_rule mark addr ∷ [])
  pub deletes :
      (mark addr : Text) (w : sys.World)
      → 0 < count (snat_rule mark addr) (table w)
      → let (answer, w') = sys.popen (render (delete_snat mark addr)) false w in
        (status answer ≡ 0) × (table w' ≡ remove (snat_rule mark addr) (table w))
  pub misses :
      (mark addr : Text) (w : sys.World)
      → count (snat_rule mark addr) (table w) ≡ 0
      → let (answer, w') = sys.popen (render (delete_snat mark addr)) false w in
        (status answer ≡ 256) × (table w' ≡ table w)
  pub shows :
      (number : Text) (w : sys.World)
      → table (sys.popen (render (show_routes number)) true w).1 ≡ table w
  pub routes :
      (number iface hop : Text) (w : sys.World)
      → table (sys.popen (render (default_route number iface hop)) false w).1 ≡ table w
  pub opens : (w : sys.World) → table (sys.socket w).1 ≡ table w
  pub addresses : (iface : Text) (w : sys.World) → table (sys.get_addr iface w).1 ≡ table w

-- The rules that the recorded addresses stand for.
unfoldable pub rule_of : Health → List Text
rule_of h = if is_empty h.address then [] else snat_rule (table_of h) h.address ∷ []

unfoldable pub rules_of : Map Text Health → List Text
unfolding rule_of
rules_of [] = []
rules_of ((iface, h) ∷ rest) = rule_of h ++ rules_of rest
