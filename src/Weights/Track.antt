-- ===== src/Weights/Track.antt =====
-- What the first loop of `get_new_weights` has collected along a failover rule.
use mathlib.Core.List.{append_assoc}
use vyatta_wanloadbalance.Common.{
  ℕ, ◌≤◌, ◌<◌, ◌≡◌, refl, ap, inl, inr, true, false, [], ◌∷◌, ◌++◌, Text, Map, ℤ, pos, ◌-ℤ◌, ltb_ℤ,
  ltb, int_laws, arith, text_key, IsSorted, if◌then◌else◌, Bool-cases, Option, none, some,
  map_values, insert,
}
use vyatta_wanloadbalance.Data.{Data}
use vyatta_wanloadbalance.State.{is_active}
use vyatta_wanloadbalance.Float.{Float, FloatLaws, exact_max}
use vyatta_wanloadbalance.Weights.{collect_one, collect, normalise}
use vyatta_wanloadbalance.Weights.Append.{
  Below, Before, insert-eq-append, Before-append, Below-map_values,
}

-- The last active interface whose weight is above that of the active interface before it, starting
-- from the weight `group` of the latest active one, and the weight of the last active interface.
unfoldable pub lead : Data → Map Text ℕ → ℕ → Option (Text × ℕ) → Option (Text × ℕ) × ℕ
lead d [] group leader = (leader, group)
lead d ((iface, weight) ∷ rest) group leader =
    lead d rest (if is_active d iface then weight else group) (
      if is_active d iface
      then if ltb group weight then some (iface, weight) else leader
      else leader)

-- Every weight is positive and a `float`.
abbrev pub ArePositive : Map Text ℕ → Type 0
ArePositive [] = Unit {0}
ArePositive ((iface, weight) ∷ rest) = (0 < weight) × (weight ≤ exact_max) × ArePositive rest

pub minus_zero : (n : ℕ) → pos n -ℤ pos 0 ≡ pos n
minus_zero n = omega int_laws

module _ (float : Float) where
  open float use {F, of_int, div, positive, below_cent, to_int}

  abbrev pub Zeros : Map Text F → Type 0
  Zeros [] = Unit {0}
  Zeros ((iface, f) ∷ m) = (f ≡ of_int (pos 0)) × Zeros m

  abbrev zeroed : Map Text F → Map Text F
  zeroed = map_values (λ _ _. of_int (pos 0))

  zeroed-Zeros : (m : Map Text F) → Zeros (zeroed m)
  unfolding map_values
  zeroed-Zeros [] = tt
  zeroed-Zeros ((iface, f) ∷ m) = (refl, zeroed-Zeros m)

  Zeros-append :
      (m : Map Text F) (iface : Text) → Zeros m → Zeros (m ++ (iface, of_int (pos 0)) ∷ [])
  Zeros-append [] iface z = (refl, tt)
  Zeros-append ((j, f) ∷ m) iface z = (z.0, Zeros-append m iface z.1)

  -- What the first loop has collected: zeros, then the leader, then anything.
  abbrev pub Track : Map Text F → ℕ → Option (Text × ℕ) → Type 0
  Track m group none = Zeros m × (group ≡ 0)
  Track m group (some (iface, weight)) =
      (zeros : Map Text F) × (rest : Map Text F) × (m
        ≡ zeros ++ (iface, of_int (pos weight)) ∷ rest)
      × Zeros zeros
      × (0 < group)
      × (group ≤ weight)
      × (weight ≤ exact_max)

  -- An entry that is appended without taking the lead.
  Track-append :
      (m : Map Text F) (group group' : ℕ) (leader : Option (Text × ℕ)) (iface : Text) (weight : ℕ)
      → Track m group leader
      → group' ≤ group
      → ((group ≡ 0) → (weight ≡ 0) × (group' ≡ 0))
      → ((0 < group) → 0 < group')
      → Track (m ++ (iface, of_int (pos weight)) ∷ []) group' leader
  Track-append m group group' none iface weight t le zero keep =
      let (w, g) = zero t.1 in (rw w (Zeros-append m iface t.0), g)
  Track-append m group group' (some (l, wl)) iface weight (zeros, rest, e, z, p, q, r) le zero
        keep =
      (
        zeros,
        rest ++ (iface, of_int (pos weight)) ∷ [],
        rw e (append_assoc zeros _ _),
        z,
        keep p,
        omega arith,
        r,
      )

  -- The two ways in which an active interface enters the map.
  insert_up :
      (iface : Text) (weight : ℕ) (m : Map Text F) (group : ℕ)
      → Below iface m
      → ltb group weight ≡ true
      → ◌≡◌ {A = Map Text F × ℤ}
          (
            insert iface
                (of_int (pos weight))
                (if ltb_ℤ (pos group) (pos weight) then zeroed m else m),
            pos weight,
          )
          (zeroed m ++ (iface, of_int (pos weight)) ∷ [], pos weight)
  insert_up iface weight m group b up =
      let above : ltb_ℤ (pos group) (pos weight) ≡ true = ground arith in
      rw above (
        ap (λ (n : Map Text F). (n, pos weight))
          (insert-eq-append iface (of_int (pos weight)) (zeroed m) (Below-map_values iface _ m b)))

  insert_down :
      (iface : Text) (weight : ℕ) (m : Map Text F) (group : ℕ)
      → Below iface m
      → ltb group weight ≡ false
      → ◌≡◌ {A = Map Text F × ℤ}
          (
            insert iface
                (of_int (pos weight))
                (if ltb_ℤ (pos group) (pos weight) then zeroed m else m),
            pos weight,
          )
          (m ++ (iface, of_int (pos weight)) ∷ [], pos weight)
  insert_down iface weight m group b down =
      let above : ltb_ℤ (pos group) (pos weight) ≡ false = ground arith in
      rw above (
        ap (λ (n : Map Text F). (n, pos weight)) (insert-eq-append iface (of_int (pos weight)) m b))

  collect_one-Track :
      (d : Data) (iface : Text) (weight : ℕ) (m : Map Text F) (group : ℕ)
      (leader : Option (Text × ℕ))
      → Below iface m
      → 0 < weight
      → weight ≤ exact_max
      → Track m group leader
      → (m' : Map Text F) × (collect_one float d true iface weight (m, pos group)
          ≡ (m', pos (if is_active d iface then weight else group)))
        × ((value : F) × (kept : Map Text F) × (m' ≡ kept ++ (iface, value) ∷ [])
            × Below iface kept)
        × Track m' (if is_active d iface then weight else group) (
            if is_active d iface
            then if ltb group weight then some (iface, weight) else leader
            else leader)
  unfolding collect_one
  collect_one-Track d iface weight m group leader b p q t = elim (Bool-cases (is_active d iface)) [
    | inl e ↦ elim (Bool-cases (ltb group weight)) [
      | inl up ↦
          rw (e, up)
            (
              zeroed m ++ (iface, of_int (pos weight)) ∷ [],
              insert_up iface weight m group b up,
              (of_int (pos weight), zeroed m, refl, Below-map_values iface _ m b),
              (zeroed m, [], refl, zeroed-Zeros m, p, omega arith, q),
            )
      | inr down ↦
          rw (e, down)
            (
              m ++ (iface, of_int (pos weight)) ∷ [],
              insert_down iface weight m group b down,
              (of_int (pos weight), m, refl, b),
              Track-append m group weight leader iface weight t (ground arith)
                  (λ z. absurd (ground arith)) (λ _. p),
            )
    ]
    | inr e ↦ rw e (
      m ++ (iface, of_int (pos 0)) ∷ [],
      rw (insert-eq-append iface (of_int (pos 0)) m b),
      (of_int (pos 0), m, refl, b),
      Track-append m group group leader iface 0 t (omega arith) (λ z. (refl, z)) (λ z. z),
    )
  ]

  -- What the first loop leaves behind the last entry.
  pub collect-Track :
      (d : Data) (rest : Map Text ℕ) (m : Map Text F) (group : ℕ) (leader : Option (Text × ℕ))
      → IsSorted rest
      → Before m rest
      → ArePositive rest
      → Track m group leader
      → (m' : Map Text F) × (collect float d true rest (m, pos group)
          ≡ (m', pos (lead d rest group leader).1))
        × Track m' (lead d rest group leader).1 (lead d rest group leader).0
  unfolding collect lead
  collect-Track d [] m group leader s b p t = (m, refl, t)
  collect-Track d ((iface, weight) ∷ rest) m group leader s b p t =
      let (m', e, (value, kept, shape, below), t') =
        collect_one-Track d iface weight m group leader b p.0 p.1 t in
      let before : Before m' rest = rw shape (Before-append iface value kept rest s.0 below) in
      rw e (collect-Track d rest m' _ _ s.1 before p.2 t')

  pub normalise-Zeros :
      (group : ℕ) (zeros m : Map Text F)
      → FloatLaws float
      → Zeros zeros
      → normalise float (pos group) (zeros ++ m) ≡ normalise float (pos group) m
  unfolding normalise
  normalise-Zeros group [] m laws z = refl
  normalise-Zeros group ((iface, f) ∷ zeros) m laws z =
      rw
        (
          z.0,
          laws.positive-of_int 0 (omega arith),
          laws.to_int-of_int 0 (omega arith),
          laws.below_cent_zero,
          minus_zero group,
        )
        (normalise-Zeros group zeros m laws z.1)
