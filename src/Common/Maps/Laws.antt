-- ===== src/Common/Maps/Laws.antt =====
-- What a sorted list of entries answers to `find` after each write.
use mathlib.Core.Path.{◌≡◌, refl, sym, ap, ◌∙◌}
use mathlib.Core.List.{[], ◌∷◌}
use mathlib.Core.Option.{Option, none, some}
use mathlib.Core.Option
use mathlib.Core.Logic.{◌≢◌, ◌⊎◌, inl, inr}
use Prim.Native.Nat.{Ordering}
use native.Mathlib.Omega.{arith}
use vyatta_wanloadbalance.Common.Keys.{Key}
use vyatta_wanloadbalance.Common.Maps.{Map, find, insert, alter, map_values, Above, IsSorted}

-- What `insert` leaves under its own key.
abbrev pub kept : {V : Type 0} → V → Option V → Option V
kept v none = some v
kept v (some w) = some w

Ordering-cases : (o : Ordering) → (o ≡ Ordering.lt) ⊎ ((o ≡ Ordering.eq) ⊎ (o ≡ Ordering.gt))
Ordering-cases Ordering.lt = inl refl
Ordering-cases Ordering.eq = inr (inl refl)
Ordering-cases Ordering.gt = inr (inr refl)

module _ {K : Type 0} ⦃key : Key K⦄ where
  pub key_dec : (a b : K) → Dec (a ≡ b)
  key_dec a b = go (key.cmp a b) refl
    where
      differ : (o : Ordering) → key.cmp a b ≡ o → o ≢ Ordering.eq → ¬ (a ≡ b)
      differ o e ne same = ne (sym e ∙ ap (key.cmp a) (sym same) ∙ key.cmp_refl a)

      go : (o : Ordering) → key.cmp a b ≡ o → Dec (a ≡ b)
      go Ordering.lt e = no (differ _ e (λ h. cc))
      go Ordering.eq e = yes (key.cmp_eq a b e)
      go Ordering.gt e = no (differ _ e (λ h. cc))

module _ {K V : Type 0} ⦃key : Key K⦄ where
  Above-insert :
      (i k : K) (v : V) (m : Map K V)
      → key.cmp i k ≡ Ordering.lt
      → Above i m
      → Above i (insert k v m)
  unfolding insert
  Above-insert i k v [] h a = h
  Above-insert i k v ((j, w) ∷ m) h a = ground arith

  -- `insert` keeps the order of the keys.
  pub insert-IsSorted : (k : K) (v : V) (m : Map K V) → IsSorted m → IsSorted (insert k v m)
  unfolding insert
  insert-IsSorted k v [] s = (tt, tt)
  insert-IsSorted k v ((j, w) ∷ m) s = elim (Ordering-cases (key.cmp k j)) [
    | inl e ↦ rw (e, insert) (e, s)
    | inr (inl e) ↦ rw (e, insert) s
    | inr (inr e) ↦
        rw (e, insert) (Above-insert j k v m (key.cmp_gt k j e) s.0, insert-IsSorted k v m s.1)
  ]

  Above-alter : (i k : K) (f : V → V) (m : Map K V) → Above i m → Above i (alter k f m)
  unfolding alter
  Above-alter i k f [] a = a
  Above-alter i k f ((j, w) ∷ m) a = ground arith

  pub alter-IsSorted : (k : K) (f : V → V) (m : Map K V) → IsSorted m → IsSorted (alter k f m)
  unfolding alter
  alter-IsSorted k f [] s = tt
  alter-IsSorted k f ((j, w) ∷ m) s = elim (Ordering-cases (key.cmp k j)) [
    | inl e ↦ rw (e, alter) (Above-alter j k f m s.0, alter-IsSorted k f m s.1)
    | inr (inl e) ↦ rw (e, alter) (s.0, s.1)
    | inr (inr e) ↦ rw (e, alter) (Above-alter j k f m s.0, alter-IsSorted k f m s.1)
  ]

  Above-map_values : (i : K) (f : K → V → V) (m : Map K V) → Above i m → Above i (map_values f m)
  unfolding map_values
  Above-map_values i f [] a = a
  Above-map_values i f ((j, w) ∷ m) a = a

  pub map_values-IsSorted : (f : K → V → V) (m : Map K V) → IsSorted m → IsSorted (map_values f m)
  unfolding map_values
  map_values-IsSorted f [] s = tt
  map_values-IsSorted f ((j, w) ∷ m) s = (Above-map_values j f m s.0, map_values-IsSorted f m s.1)

  Above-trans : (i k : K) (m : Map K V) → key.cmp i k ≡ Ordering.lt → Above k m → Above i m
  Above-trans i k [] h a = tt
  Above-trans i k ((j, w) ∷ m) h a = key.cmp_trans i k j h a

  pub find-Above : (k : K) (m : Map K V) → Above k m → IsSorted m → find k m ≡ none
  unfolding find
  find-Above k [] a s = refl
  find-Above k ((j, w) ∷ m) a s = rw (a, find) (find-Above k m (Above-trans k j m a s.0) s.1)

  pub find-insert_self :
      (k : K) (v : V) (m : Map K V) → IsSorted m → find k (insert k v m) ≡ kept v (find k m)
  unfolding find insert
  find-insert_self k v [] s = rw (key.cmp_refl k)
  find-insert_self k v ((j, w) ∷ m) s =
      ground (arith, key.cmp_refl k, find-insert_self k v m s.1, find-Above k m, Above-trans k j m)

  pub find-insert_ne :
      (i k : K) (v : V) (m : Map K V) → ¬ (i ≡ k) → find i (insert k v m) ≡ find i m
  unfolding find insert
  find-insert_ne i k v [] ne = ground (arith, key.cmp_eq i k)
  find-insert_ne i k v ((j, w) ∷ m) ne = ground (arith, key.cmp_eq i k, find-insert_ne i k v m ne)

  pub find-alter_self :
      (k : K) (f : V → V) (m : Map K V) → find k (alter k f m) ≡ Option.map f (find k m)
  unfolding find alter
  find-alter_self k f [] = refl
  find-alter_self k f ((j, w) ∷ m) = ground (arith, find-alter_self k f m)

  pub find-alter_ne :
      (i k : K) (f : V → V) (m : Map K V) → ¬ (i ≡ k) → find i (alter k f m) ≡ find i m
  unfolding find alter
  find-alter_ne i k f [] ne = refl
  find-alter_ne i k f ((j, w) ∷ m) ne =
      ground (arith, key.cmp_eq i j, key.cmp_eq k j, find-alter_ne i k f m ne)

  pub find-map_values :
      (k : K) (f : K → V → V) (m : Map K V) → find k (map_values f m) ≡ Option.map (f k) (find k m)
  unfolding find map_values
  find-map_values k f [] = refl
  find-map_values k f ((j, w) ∷ m) = ground (arith, key.cmp_eq k j, find-map_values k f m)

  pub find-cons_self : (k : K) (v : V) (m : Map K V) → find k ((k, v) ∷ m) ≡ some v
  unfolding find
  find-cons_self k v m = rw (key.cmp_refl k, find)

  pub find-cons_ne : (i k : K) (v : V) (m : Map K V) → ¬ (i ≡ k) → find i ((k, v) ∷ m) ≡ find i m
  unfolding find
  find-cons_ne i k v m ne = ground (arith, key.cmp_eq i k)
