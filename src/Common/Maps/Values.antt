-- ===== src/Common/Maps/Values.antt =====
-- A property of every value of a map.
use mathlib.Core.List.{List, [], ◌∷◌}
use mathlib.Core.Path.{◌≡◌, refl, ap}
use native.Mathlib.Omega.{arith}
use mathlib.Core.Option.{Option, none, some}
use Prim.Native.Nat.{Ordering}
use vyatta_wanloadbalance.Common.Keys.{Key}
use vyatta_wanloadbalance.Common.Maps.{Map, find, insert, alter, map_values}

abbrev pub AllValues : {K V : Type 0} → (V → Type 0) → Map K V → Type 0
AllValues P [] = Unit {0}
AllValues P ((k, v) ∷ m) = P v × AllValues P m

-- A property of a result, if there is one.
abbrev pub Holds : {A : Type 0} → (A → Type 0) → Option A → Type 0
Holds P none = Unit {0}
Holds P (some a) = P a

module _ {K V : Type 0} ⦃key : Key K⦄ (P : V → Type 0) where
  pub AllValues-insert :
      (k : K) (v : V) (m : Map K V) → P v → AllValues P m → AllValues P (insert k v m)
  unfolding insert
  AllValues-insert k v [] p all = (p, tt)
  AllValues-insert k v ((j, w) ∷ m) p all =
      elim (key.cmp k j)
        as (λ (o : Ordering). AllValues P (elim o [
          | Ordering.lt ↦ (k, v) ∷ (j, w) ∷ m
          | Ordering.eq ↦ (j, w) ∷ m
          | Ordering.gt ↦ (j, w) ∷ insert k v m
        ])) [
          | Ordering.lt ↦ (p, all)
          | Ordering.eq ↦ all
          | Ordering.gt ↦ (all.0, AllValues-insert k v m p all.1)
        ]

  pub AllValues-alter :
      (k : K) (f : V → V) (m : Map K V)
      → ((v : V) → P v → P (f v))
      → AllValues P m
      → AllValues P (alter k f m)
  unfolding alter
  AllValues-alter k f [] step all = tt
  AllValues-alter k f ((j, w) ∷ m) step all =
      elim (key.cmp k j)
        as (λ (o : Ordering).
          AllValues P (elim o [ Ordering.eq ↦ (j, f w) ∷ m | _ ↦ (j, w) ∷ alter k f m ])) [
            | Ordering.lt ↦ (all.0, AllValues-alter k f m step all.1)
            | Ordering.eq ↦ (step w all.0, all.1)
            | Ordering.gt ↦ (all.0, AllValues-alter k f m step all.1)
          ]

  pub AllValues-map_values :
      (Q : V → Type 0) (f : K → V → V) (m : Map K V)
      → ((k : K) (v : V) → P v → Q (f k v))
      → AllValues P m
      → AllValues Q (map_values f m)
  unfolding map_values
  AllValues-map_values Q f [] step all = tt
  AllValues-map_values Q f ((j, w) ∷ m) step all =
      (step j w all.0, AllValues-map_values Q f m step all.1)

  pub AllValues-find : (k : K) (m : Map K V) → AllValues P m → Holds P (find k m)
  unfolding find
  AllValues-find k [] all = tt
  AllValues-find k ((j, w) ∷ m) all =
      elim (key.cmp k j)
        as (λ (o : Ordering). Holds P (elim o [ Ordering.eq ↦ some w | _ ↦ find k m ])) [
          | Ordering.lt ↦ AllValues-find k m all.1
          | Ordering.eq ↦ all.0
          | Ordering.gt ↦ AllValues-find k m all.1
        ]

-- The keys of a map.
abbrev pub keys : {K V : Type 0} → Map K V → List K
keys [] = []
keys ((k, v) ∷ m) = k ∷ keys m

module _ {K V : Type 0} ⦃key : Key K⦄ where
  pub keys-alter : (k : K) (f : V → V) (m : Map K V) → keys (alter k f m) ≡ keys m
  unfolding alter
  keys-alter k f [] = refl
  keys-alter k f ((j, w) ∷ m) = ground (arith, keys-alter k f m)

  pub keys-map_values : (f : K → V → V) (m : Map K V) → keys (map_values f m) ≡ keys m
  unfolding map_values
  keys-map_values f [] = refl
  keys-map_values f ((j, w) ∷ m) = ap (λ ks. j ∷ ks) (keys-map_values f m)
