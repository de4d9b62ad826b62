-- ===== src/Weights/Append.antt =====
-- The first loop of `get_new_weights` visits the interfaces in the order of their names, so each
-- insertion is at the end of the map.
use vyatta_wanloadbalance.Common.{
  ◌≡◌, refl, ap, [], ◌∷◌, ◌++◌, Map, Key, Ordering, Above, insert, map_values,
}

module _ {K : Type 0} ⦃key : Key K⦄ where
  pub cmp_lt : (a b : K) → key.cmp a b ≡ Ordering.lt → key.cmp b a ≡ Ordering.gt
  cmp_lt a b h = go (key.cmp b a) refl
    where
      go : (o : Ordering) → key.cmp b a ≡ o → o ≡ Ordering.gt
      go Ordering.lt e = cc (key.cmp_trans a b a h e, key.cmp_refl a)
      go Ordering.eq e = cc (ap (key.cmp a) (key.cmp_eq b a e), key.cmp_refl a)
      go Ordering.gt e = refl

module _ {K V : Type 0} ⦃key : Key K⦄ where
  -- All keys of a map lie before a key.
  abbrev pub Below : K → Map K V → Type 0
  Below k [] = Unit {0}
  Below k ((j, w) ∷ m) = (key.cmp j k ≡ Ordering.lt) × Below k m

  pub insert-eq-append : (k : K) (v : V) (m : Map K V) → Below k m → insert k v m ≡ m ++ (k, v) ∷ []
  unfolding insert
  insert-eq-append k v [] b = refl
  insert-eq-append k v ((j, w) ∷ m) b =
      rw (cmp_lt j k b.0, insert) (ap (λ r. (j, w) ∷ r) (insert-eq-append k v m b.1))

  Below-trans : (k l : K) (m : Map K V) → key.cmp k l ≡ Ordering.lt → Below k m → Below l m
  Below-trans k l [] h b = tt
  Below-trans k l ((j, w) ∷ m) h b = (key.cmp_trans j k l b.0 h, Below-trans k l m h b.1)

  pub Below-append :
      (k l : K) (v : V) (m : Map K V)
      → key.cmp k l ≡ Ordering.lt
      → Below k m
      → Below l (m ++ (k, v) ∷ [])
  Below-append k l v [] h b = (h, tt)
  Below-append k l v ((j, w) ∷ m) h b = (key.cmp_trans j k l b.0 h, Below-append k l v m h b.1)

  pub Below-map_values :
      (k : K) (f : K → V → V) (m : Map K V) → Below k m → Below k (map_values f m)
  unfolding map_values
  Below-map_values k f [] b = tt
  Below-map_values k f ((j, w) ∷ m) b = (b.0, Below-map_values k f m b.1)

module _ {K V W : Type 0} ⦃key : Key K⦄ where
  -- All keys of a map lie before the first of the keys that are still to come.
  abbrev pub Before : Map K V → Map K W → Type 0
  Before m [] = Unit {0}
  Before m ((k, w) ∷ rest) = Below k m

  pub Before-append :
      (k : K) (v : V) (m : Map K V) (rest : Map K W)
      → Above k rest
      → Below k m
      → Before (m ++ (k, v) ∷ []) rest
  Before-append k v m [] a b = tt
  Before-append k v m ((l, w) ∷ rest) a b = Below-append k l v m a b

  pub Before-nil : (m : Map K V) (rest : Map K W) → m ≡ [] → Before m rest
  Before-nil m [] e = tt
  Before-nil m ((l, w) ∷ rest) e = rw e tt
