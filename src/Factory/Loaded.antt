-- ===== src/Factory/Loaded.antt =====
-- What `load` leaves in the data.
pub mod Depth
pub mod Braces
use vyatta_wanloadbalance.Common.{
  ℕ, ◌≡◌, refl, ap, sym, ◌∙◌, Bool, true, false, List, [], ◌∷◌, Option, none, some, Text, Map, ℤ,
  pos, eq_ℤ, arith, IsSorted, AllValues, AllValues-map_values, Holds, map_values,
  map_values-IsSorted, insert, insert-IsSorted, int_key, text_key, is_empty, if◌then◌else◌,
}
use vyatta_wanloadbalance.Data.{Health, Test, ping, new_test}
use vyatta_wanloadbalance.State.Lease.{fgets_lines}
use vyatta_wanloadbalance.StrProc.{str_proc}
use vyatta_wanloadbalance.Factory.{DataFactory}
use vyatta_wanloadbalance.Factory.Process.{process}
use vyatta_wanloadbalance.Factory.Load.{
  Place, Reader, before_hash, read_symbols, read_line, is_malformed, default_test, finish,
  read_lines, start, load,
}
use vyatta_wanloadbalance.Factory.Sound.{IsHealth, IsSound}
use vyatta_wanloadbalance.Factory.Kept.{Keeps}
use vyatta_wanloadbalance.Factory.Kept.Process.{process-Keeps}

-- An interface has a test.
abbrev pub HasTest : Health → Type 0
HasTest h = is_empty h.test_coll ≡ false

-- The rest of a line is read without a change to the factory.
line-IsSound :
    (text : Text) (r : Reader)
    → IsSound r.factory.lb_data
    → Holds (λ (q : Reader). IsSound q.factory.lb_data) (read_line text r)
unfolding read_line
line-IsSound text r s = go (read_symbols line (str_proc line b' ') begin)
  where
    line : Text
    line = before_hash text

    begin : Place
    begin = record { path = r.path; depth = r.depth; key = []; value = [] }

    given : Place → Option DataFactory → Option Reader
    given p o = elim o [
      | none ↦ none
      | some f ↦ some (record { path = p.path; depth = p.depth; factory = f })
    ]

    done :
        (p : Place) (o : Option DataFactory)
        → Keeps o
        → Holds (λ (q : Reader). IsSound q.factory.lb_data) (given p o)
    done p none k = tt
    done p (some f) k = k.sound

    guard :
        (p : Place) (b : Bool)
        → Holds
            (λ (q : Reader). IsSound q.factory.lb_data)
            (if b
              then some (record { path = p.path; depth = p.depth; factory = r.factory })
              else given p (process p.path p.depth p.key p.value r.factory))
    guard p true = s
    guard p false = done p _ (process-Keeps p.path p.depth p.key p.value r.factory s)

    go :
        (o : Option Place)
        → Holds
            (λ (q : Reader). IsSound q.factory.lb_data)
            (elim o [
              | none ↦ none
              | some p ↦
                  if is_empty (str_proc line b' ')
                  then some (record { path = p.path; depth = p.depth; factory = r.factory })
                  else given p (process p.path p.depth p.key p.value r.factory)
            ])
    go none = tt
    go (some p) = guard p (is_empty (str_proc line b' '))

default_test-IsHealth : (h : Health) → IsHealth h → IsHealth (default_test h)
unfolding default_test insert
default_test-IsHealth h k =
    elim (is_empty h.test_coll)
      as (λ (b : Bool).
        IsHealth (if b then record h { test_coll = insert (pos 1) (new_test ping) [] } else h)) [
          | true ↦ ((tt, tt), k.1, k.2, k.3)
          | false ↦ k
        ]

default_test-HasTest : (h : Health) → HasTest (default_test h)
unfolding default_test insert
default_test-HasTest h = ground arith

finish-IsSound : (f : DataFactory) → IsSound f.lb_data → IsSound (finish f).lb_data
unfolding finish
finish-IsSound f s = record {
  rules_in_order = s.rules_in_order;
  rules = s.rules;
  ifaces_in_order = map_values-IsSorted _ f.lb_data.iface_health_coll s.ifaces_in_order;
  ifaces =
      AllValues-map_values IsHealth IsHealth _ f.lb_data.iface_health_coll
        (λ k. default_test-IsHealth) s.ifaces;
}

all-HasTest : (m : Map Text Health) → AllValues HasTest (map_values (λ _ h. default_test h) m)
unfolding map_values
all-HasTest [] = tt
all-HasTest ((iface, h) ∷ m) = (default_test-HasTest h, all-HasTest m)

finish-HasTest : (f : DataFactory) → AllValues HasTest (finish f).lb_data.iface_health_coll
unfolding finish
finish-HasTest f = all-HasTest f.lb_data.iface_health_coll

-- What a run of `load` ends with.
abbrev Ends : Bool × DataFactory → Type 0
Ends (ok, f) = IsSound f.lb_data × ((ok ≡ true) → AllValues HasTest f.lb_data.iface_health_coll)

lines-Ends :
    (texts : List Text) (r : Reader) → IsSound r.factory.lb_data → Holds Ends (read_lines texts r)
unfolding read_lines
lines-Ends [] r s =
    elim (eq_ℤ r.depth (pos 0))
      as (λ (b : Bool).
        Holds Ends (if b then some (true, finish r.factory) else some (false, r.factory))) [
          | true ↦ (finish-IsSound r.factory s, λ e. finish-HasTest r.factory)
          | false ↦ (s, λ e. absurd (ground arith))
        ]
lines-Ends (text ∷ texts) r s =
    elim (read_line text r)
        as (λ (o : Option Reader).
          Holds (λ (q : Reader). IsSound q.factory.lb_data) o
          → Holds Ends (elim o as (λ (p : Option Reader). Option (Bool × DataFactory)) [
            | none ↦ none
            | some r' ↦
                if is_malformed r'.depth then some (false, r'.factory) else read_lines texts r'
          ])) [
            | none ↦ λ k. tt
            | some r' ↦ λ k.
                elim (is_malformed r'.depth)
                  as (λ (b : Bool).
                    Holds Ends (if b then some (false, r'.factory) else read_lines texts r')) [
                      | true ↦ (k, λ e. absurd (ground arith))
                      | false ↦ lines-Ends texts r' k
                    ]
          ]
      (line-IsSound text r s)

load-Ends :
    (content : Option Text) (f : DataFactory) → IsSound f.lb_data → Holds Ends (load content f)
unfolding load
load-Ends none f s = (s, λ e. absurd (ground arith))
load-Ends (some content) f s = lines-Ends (fgets_lines content) (start f) (unfold start in s)

-- Whatever the file holds, and whether or not the configuration is accepted, the data that `load`
-- leaves is sound if it was so before: rules, interfaces, tests and weights are in order, and
-- every threshold and weight is a non-negative `int`.
pub load-IsSound :
    (content : Option Text) (f f' : DataFactory) (ok : Bool)
    → IsSound f.lb_data
    → load content f ≡ some (ok, f')
    → IsSound f'.lb_data
load-IsSound content f f' ok s e = (rw e at (load-Ends content f s)).0

-- After `load` accepts a configuration, starting from sound data, every interface has a test.
pub load_tests :
    (content : Option Text) (f f' : DataFactory)
    → IsSound f.lb_data
    → load content f ≡ some (true, f')
    → AllValues HasTest f'.lb_data.iface_health_coll
load_tests content f f' s e = (rw e at (load-Ends content f s)).1 refl
