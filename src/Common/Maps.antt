-- ===== src/Common/Maps.antt =====
-- `std::map` as the list of its entries in the order of the keys.
pub mod Laws
pub mod Values
use mathlib.Core.Path.{◌≡◌}
use mathlib.Core.List.{List, [], ◌∷◌}
use mathlib.Core.Option.{Option, none, some}
use Prim.Native.Nat.{Ordering}
use vyatta_wanloadbalance.Common.Keys.{Key}

abbrev pub Map : Type 0 → Type 0 → Type 0
Map K V = List (K × V)

module _ {K V : Type 0} ⦃key : Key K⦄ where
  -- `find`; `none` is `end()`.
  unfoldable pub find : K → Map K V → Option V
  find k [] = none
  find k ((j, v) ∷ m) = elim (key.cmp k j) [ Ordering.eq ↦ some v | _ ↦ find k m ]

  -- `insert`: an entry that is there already stays.
  unfoldable pub insert : K → V → Map K V → Map K V
  insert k v [] = (k, v) ∷ []
  insert k v ((j, w) ∷ m) = elim (key.cmp k j) [
    | Ordering.lt ↦ (k, v) ∷ (j, w) ∷ m
    | Ordering.eq ↦ (j, w) ∷ m
    | Ordering.gt ↦ (j, w) ∷ insert k v m
  ]

  -- A write through an iterator at `k`.
  unfoldable pub alter : K → (V → V) → Map K V → Map K V
  alter k f [] = []
  alter k f ((j, w) ∷ m) = elim (key.cmp k j) [
    | Ordering.eq ↦ (j, f w) ∷ m
    | _ ↦ (j, w) ∷ alter k f m
  ]

  -- A write through an iterator that visits every entry.
  unfoldable pub map_values : (K → V → V) → Map K V → Map K V
  map_values f [] = []
  map_values f ((j, w) ∷ m) = (j, f j w) ∷ map_values f m

  abbrev pub Above : K → Map K V → Type 0
  Above k [] = Unit {0}
  Above k ((j, w) ∷ m) = key.cmp k j ≡ Ordering.lt

  -- The keys rise along the list.
  abbrev pub IsSorted : Map K V → Type 0
  IsSorted [] = Unit {0}
  IsSorted ((k, v) ∷ m) = Above k m × IsSorted m
