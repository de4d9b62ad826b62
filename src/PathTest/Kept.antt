-- ===== src/PathTest/Kept.antt =====
-- Properties of an interface that every step of its tests keeps.
use vyatta_wanloadbalance.Common.{
  ℕ, zero, suc, ◌+◌, ◌≡◌, refl, Bool, true, false, List, [], ◌∷◌, ◌++◌, Option, none, some, Text, ℤ,
  minus_one, pos, leb_ℤ, All, AllValues, AllValues-alter, AllValues-find, Holds, find, alter,
  alter-IsSorted, keys, keys-alter, ◌∙◌, IsSorted, text_key, int_key, Option-cases, inl, inr,
  if◌then◌else◌,
}
use vyatta_wanloadbalance.Data.{Data, Health, Test}
use vyatta_wanloadbalance.Health.{put}
use vyatta_wanloadbalance.PathTest.{
  Prober, start_new_test_cycle, current, set_current, start_new_test, send_test, recv_test,
  start_all, send_all, recv_all, round, rounds, begin, store, path_test,
}

-- What a property has to be kept by.
pub record IsKept (beyond : ℕ → ℤ) (P : Health → Type 0) : Type 0 where
  pub cycle : (h : Health) → P h → P (start_new_test_cycle h)
  pub test :
      (h : Health) (num : ℤ) (t t' : Test)
      → current h ≡ some (num, t)
      → P h
      → P (set_current num t' h)
  pub next : (h : Health) (i : ℕ) → P h → P (record h { test_iter = i })
  pub result : (now : ℕ) (rtt : ℤ) (h : Health) → P h → P (put beyond now rtt h)

module _ (beyond : ℕ → ℤ) (prober : Prober) (P : Health → Type 0) (keep : IsKept beyond P) where
  open prober use {World, now, recv}

  abbrev Each : List (Text × Health) → Type 0
  Each coll = All (λ (x : Text × Health). P x.1) coll

  start_kept : (h : Health) (w : World) → P h → P (start_new_test beyond prober h w).0
  unfolding start_new_test
  start_kept h w p = elim (Option-cases (current h)) [
    | inl e ↦ rw (start_new_test, e) p
    | inr ((num, t), e) ↦ rw (start_new_test, e) (keep.test h num t _ e p)
  ]

  send_kept : (h : Health) (w : World) → P h → P (send_test beyond prober h w).0
  unfolding send_test
  send_kept h w p = elim (Option-cases (current h)) [
    | inl e ↦ rw (send_test, e) p
    | inr ((num, t), e) ↦ rw (send_test, e) (keep.test h num t _ e p)
  ]

  answered :
      (b : Bool) (now : ℕ) (rtt : ℤ) (h : Health) (w : World)
      → P h
      → P
          (if◌then◌else◌ {A = Bool × Health × World} b
            (true, put beyond now rtt h, w)
            (false, h, w)).1
  answered true at rtt h w p = keep.result at rtt h p
  answered false at rtt h w p = p

  recv_kept : (h : Health) (w : World) → P h → P (recv_test beyond prober h w).1
  unfolding recv_test
  recv_kept h w p = elim (Option-cases (current h)) [
    | inl e ↦ rw (recv_test, e) (keep.result (now w) minus_one h p)
    | inr ((num, t), e) ↦
        rw (recv_test, e)
          (answered (leb_ℤ (pos 0) (recv h t w).0) _ _ _ _
            (keep.next _ (h.test_iter + 1) (keep.test h num t _ e p)))
  ]

  start_all_kept :
      (coll : List (Text × Health)) (w : World)
      → Each coll
      → Each (start_all beyond prober coll w).0
  unfolding start_all
  start_all_kept [] w p = tt
  start_all_kept ((iface, h) ∷ rest) w p = (start_kept h w p.0, start_all_kept rest _ p.1)

  send_all_kept :
      (coll : List (Text × Health)) (w : World) → Each coll → Each (send_all beyond prober coll w).0
  unfolding send_all
  send_all_kept [] w p = tt
  send_all_kept ((iface, h) ∷ rest) w p = (send_kept h w p.0, send_all_kept rest _ p.1)

  abbrev Both : List (Text × Health) × List (Text × Health) × World → Type 0
  Both (waiting, erased, w) = Each waiting × Each erased

  divide :
      (iface : Text) (r : Bool × Health × World)
      (rest : List (Text × Health) × List (Text × Health) × World)
      → P r.1
      → Both rest
      → Both (
          if r.0
          then (rest.0, (iface, r.1) ∷ rest.1, rest.2)
          else ((iface, r.1) ∷ rest.0, rest.1, rest.2))
  divide iface (true, h, w) rest p q = (q.0, (p, q.1))
  divide iface (false, h, w) rest p q = ((p, q.0), q.1)

  recv_all_kept :
      (coll : List (Text × Health)) (w : World) → Each coll → Both (recv_all beyond prober coll w)
  unfolding recv_all
  recv_all_kept [] w p = (tt, tt)
  recv_all_kept ((iface, h) ∷ rest) w p =
      divide iface (recv_test beyond prober h w) _ (recv_kept h w p.0) (recv_all_kept rest _ p.1)

  round_kept :
      (coll : List (Text × Health)) (w : World) → Each coll → Both (round beyond prober coll w)
  unfolding round
  round_kept coll w p = recv_all_kept _ _ (send_all_kept _ _ (start_all_kept coll w p))

  Each-append : (xs ys : List (Text × Health)) → Each xs → Each ys → Each (xs ++ ys)
  Each-append [] ys p q = q
  Each-append (x ∷ xs) ys p q = (p.0, Each-append xs ys p.1 q)

  later :
      (erased : List (Text × Health)) (o : Option (List (Text × Health) × World))
      → Each erased
      → Holds (λ (r : List (Text × Health) × World). Each r.0) o
      → Holds
          (λ (r : List (Text × Health) × World). Each r.0)
          (elim o [ none ↦ none | some (rest, w) ↦ some (erased ++ rest, w) ])
  later erased none p q = tt
  later erased (some (rest, w)) p q = Each-append erased rest p q

  rounds_kept :
      (fuel : ℕ) (coll : List (Text × Health)) (w : World)
      → Each coll
      → Holds (λ (r : List (Text × Health) × World). Each r.0) (rounds beyond prober fuel coll w)
  unfolding rounds
  rounds_kept zero coll w p = tt
  rounds_kept (suc fuel) [] w p = tt
  rounds_kept (suc fuel) (x ∷ xs) w p =
      let both = round_kept (x ∷ xs) w p in
      later _ (rounds beyond prober fuel _ _) both.1 (rounds_kept fuel _ _ both.0)

  begin_kept :
      (order : List Text) (d : Data)
      → AllValues P d.iface_health_coll
      → Each (begin beyond prober order d)
  unfolding begin
  begin_kept [] d p = tt
  begin_kept (iface ∷ order) d p =
      go (find iface d.iface_health_coll) (AllValues-find P iface d.iface_health_coll p)
        (begin_kept order d p)
    where
      go :
          (o : Option Health)
          → Holds P o
          → Each (begin beyond prober order d)
          → Each (elim o as (λ (q : Option Health). List (Text × Health)) [
            | none ↦ begin beyond prober order d
            | some h ↦ (iface, start_new_test_cycle h) ∷ begin beyond prober order d
          ])
      go none q later = later
      go (some h) q later = (keep.cycle h q, later)

  -- What the tests store keeps the property and the interfaces with their order, and changes no
  -- other part of the data.
  abbrev pub Stored : Data → Data → Type 0
  Stored d d' =
      AllValues P d'.iface_health_coll
      × (IsSorted d.iface_health_coll → IsSorted d'.iface_health_coll)
      × (d' ≡ record d { iface_health_coll = d'.iface_health_coll })
      × (keys d'.iface_health_coll ≡ keys d.iface_health_coll)

  store_kept :
      (tested : List (Text × Health)) (d : Data)
      → Each tested
      → AllValues P d.iface_health_coll
      → Stored d (store beyond prober tested d)
  unfolding store
  store_kept [] d p q = (q, λ s. s, refl, refl)
  store_kept ((iface, h) ∷ rest) d p q =
      let m = alter iface (λ _. h) d.iface_health_coll in
      let later =
        store_kept rest (record d { iface_health_coll = m }) p.1
          (AllValues-alter P iface (λ _. h) d.iface_health_coll (λ v pv. p.0) q) in
      (
        later.0,
        λ s. later.1 (alter-IsSorted iface (λ _. h) d.iface_health_coll s),
        later.2,
        later.3 ∙ keys-alter iface (λ _. h) d.iface_health_coll,
      )

  pub path_test_kept :
      (fuel : ℕ) (order : List Text) (d : Data) (w : World)
      → AllValues P d.iface_health_coll
      → Holds (λ (r : Data × World). Stored d r.0) (path_test beyond prober fuel order d w)
  unfolding path_test
  path_test_kept fuel order d w p =
      go (rounds beyond prober fuel (begin beyond prober order d) w)
        (rounds_kept fuel (begin beyond prober order d) w (begin_kept order d p))
    where
      go :
          (o : Option (List (Text × Health) × World))
          → Holds (λ (r : List (Text × Health) × World). Each r.0) o
          → Holds
              (λ (r : Data × World). Stored d r.0)
              (elim o [ none ↦ none | some (tested, w') ↦ some (store beyond prober tested d, w') ])
      go none q = tt
      go (some (tested, w')) q = store_kept tested d q p
