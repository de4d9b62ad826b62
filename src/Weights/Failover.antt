-- ===== src/Weights/Failover.antt =====
-- Failover rules: which interface gets the traffic.
use mathlib.Core.Path.{subst}
use vyatta_wanloadbalance.Common.{
  ℕ, ◌≤◌, ◌<◌, ◌≡◌, refl, Bool, true, false, not, ◌&&◌, ◌||◌, [], ◌∷◌, Text, Map, pos, ◌-ℤ◌, eq_ℤ,
  ltb, leb, arith, text_key, IsSorted, if◌then◌else◌, Option, none, some,
}
use vyatta_wanloadbalance.Data.{Data, Rule}
use vyatta_wanloadbalance.State.{is_active}
use vyatta_wanloadbalance.Float.{Float, FloatLaws}
use vyatta_wanloadbalance.Weights.{normalise, get_new_weights}
use vyatta_wanloadbalance.Weights.Append.{Before-nil}
use vyatta_wanloadbalance.Weights.Track.{lead, ArePositive, Track, collect-Track, normalise-Zeros}

module _ (float : Float) where
  open float use {F, of_int, div, positive, below_cent, to_int}

  -- For a failover rule over interfaces in the order of their names whose weights are positive
  -- and at most 2^24: if `lead` finds a leader, the first of the new weights is the leader's, at
  -- a probability of at least one.
  pub get_new_weights-failover :
      (d : Data) (rule : Rule) (iface : Text) (weight group : ℕ)
      → FloatLaws float
      → rule.failover ≡ true
      → IsSorted rule.iface_dist_coll
      → ArePositive rule.iface_dist_coll
      → lead d rule.iface_dist_coll 0 none ≡ (some (iface, weight), group)
      → (group ≤ weight)
        × ((rest : Map Text F) × (get_new_weights float d rule
              ≡ (iface, div (of_int (pos weight)) (of_int (pos group))) ∷ rest))
  unfolding get_new_weights normalise
  get_new_weights-failover d rule iface weight group laws f s p e =
      let (m, c, t) =
        collect-Track float d rule.iface_dist_coll [] 0 none s (Before-nil {V = F} [] _ refl) p
          (tt, refl) in
      let (zeros, rest, shape, z, positive_group, le, small) =
        subst (λ r. Track float m r.1 r.0) e t in
      let nonzero : eq_ℤ (pos group) (pos 0) ≡ false = ground arith in
      let above : ltb 0 weight ≡ true = ground arith in
      (
        le,
        (
          normalise float (pos group -ℤ pos weight) rest,
          rw
              (
                f,
                c,
                e,
                nonzero,
                shape,
                normalise-Zeros float group zeros _ laws z,
                normalise,
                laws.positive-of_int weight small,
                above,
                laws.to_int-of_int weight small,
                laws.above_cent-div weight group small (omega arith) (omega arith),
              )
              refl,
        ),
      )

-- The greatest weight of an active interface, or `top`.
unfoldable pub best : Data → Map Text ℕ → ℕ → ℕ
best d [] top = top
best d ((iface, weight) ∷ rest) top =
    best d rest (if is_active d iface && ltb top weight then weight else top)

-- Along the active interfaces, every weight above the one before it is above all before it. `group`
-- is the latest weight and `top` the greatest so far.
unfoldable pub climbs : Data → Map Text ℕ → ℕ → ℕ → Bool
climbs d [] group top = true
climbs d ((iface, weight) ∷ rest) group top =
    (not (is_active d iface) || (leb weight group || ltb top weight))
    && climbs d rest (if is_active d iface then weight else group)
        (if is_active d iface && ltb top weight then weight else top)

abbrev pub weight_of : Option (Text × ℕ) → ℕ
weight_of none = 0
weight_of (some (iface, weight)) = weight

lead-best :
    (d : Data) (rest : Map Text ℕ) (group : ℕ) (leader : Option (Text × ℕ))
    → climbs d rest group (weight_of leader) ≡ true
    → group ≤ weight_of leader
    → weight_of (lead d rest group leader).0 ≡ best d rest (weight_of leader)
unfolding lead best climbs
lead-best d [] group leader c h = refl
lead-best d ((iface, weight) ∷ rest) group leader c h = ground (
  arith,
  lead-best d rest weight (some (iface, weight)),
  lead-best d rest weight leader,
  lead-best d rest group leader,
)

module _ (float : Float) where
  open float use {F, of_int, div}

  -- For a failover rule over interfaces in the order of their names whose weights are positive
  -- and at most 2^24: if no active weight rises above the one before it without rising above all
  -- before it, then, where `lead` finds an interface, that one has the greatest weight of the
  -- active ones and comes first.
  pub failover_selects_best :
      (d : Data) (rule : Rule) (iface : Text) (weight group : ℕ)
      → FloatLaws float
      → rule.failover ≡ true
      → IsSorted rule.iface_dist_coll
      → ArePositive rule.iface_dist_coll
      → lead d rule.iface_dist_coll 0 none ≡ (some (iface, weight), group)
      → climbs d rule.iface_dist_coll 0 0 ≡ true
      → (weight ≡ best d rule.iface_dist_coll 0)
        × ((rest : Map Text F) × (get_new_weights float d rule
              ≡ (iface, div (of_int (pos weight)) (of_int (pos group))) ∷ rest))
  failover_selects_best d rule iface weight group laws f s p e c =
      let highest = lead-best d rule.iface_dist_coll 0 none c (omega arith) in
      (rw e at highest, (get_new_weights-failover float d rule iface weight group laws f s p e).1)

  -- The comment promises the active interface with the highest weight. In a failover rule over
  -- three active interfaces in the order of their names, with weights that are positive and at
  -- most 2^24, where the weight falls and then rises to less than the first, the last one comes
  -- first, at a probability of one.
  pub failover_misses_best :
      (d : Data) (rule : Rule) (i j k : Text) (a b c : ℕ)
      → FloatLaws float
      → rule.failover ≡ true
      → rule.iface_dist_coll ≡ (i, a) ∷ (j, b) ∷ (k, c) ∷ []
      → IsSorted rule.iface_dist_coll
      → ArePositive rule.iface_dist_coll
      → is_active d i ≡ true
      → is_active d j ≡ true
      → is_active d k ≡ true
      → b < c
      → c < a
      → (best d rule.iface_dist_coll 0 ≡ a)
        × ((rest : Map Text F) × (get_new_weights float d rule
              ≡ (k, div (of_int (pos c)) (of_int (pos c))) ∷ rest))
  unfolding lead best
  failover_misses_best d rule i j k a b c laws f e s p hi hj hk low high = (
    rw e (ground arith),
    (get_new_weights-failover float d rule k c c laws f s p (rw e (ground (arith, e, p)))).1,
  )
