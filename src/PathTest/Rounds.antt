-- ===== src/PathTest/Rounds.antt =====
-- How many rounds the tests of all interfaces take, and what they record.
use vyatta_wanloadbalance.Common.{
  ℕ, zero, suc, ◌+◌, ◌≤◌, ◌≡◌, refl, ap, sym, ◌∙◌, Bool, true, false, List, [], ◌∷◌, ◌++◌, Option,
  none, some, Text, Map, ℤ, length, length-append, All, AllValues, AllValues-find, Holds, arith,
  find, map_values, int_key, text_key, if◌then◌else◌,
}
use vyatta_wanloadbalance.Data.{Data, Health, History, Test, k_none, new_history}
use vyatta_wanloadbalance.PathTest.{
  Prober, start_new_test_cycle, start_new_test, send_test, recv_test, start_all, send_all, recv_all,
  round, rounds, begin, store, path_test,
}
use vyatta_wanloadbalance.PathTest.Steps.{
  Before, After, start-Before, send-Before, Received, recv-Received,
}

module _ (beyond : ℕ → ℤ) (prober : Prober) (old : Text → History) where
  open prober use {World}

  start_all-Before :
      (n : ℕ) (coll : List (Text × Health)) (w : World)
      → All (Before n old) coll
      → All (Before n old) (start_all beyond prober coll w).0
        × (length (start_all beyond prober coll w).0 ≡ length coll)
  unfolding start_all
  start_all-Before n [] w b = (tt, refl)
  start_all-Before n ((iface, h) ∷ rest) w b =
      let (all, same) = start_all-Before n rest (start_new_test beyond prober h w).1 b.1 in
      ((start-Before beyond prober old n iface h w b.0, all), ap suc same)

  send_all-Before :
      (n : ℕ) (coll : List (Text × Health)) (w : World)
      → All (Before n old) coll
      → All (Before n old) (send_all beyond prober coll w).0
        × (length (send_all beyond prober coll w).0 ≡ length coll)
  unfolding send_all
  send_all-Before n [] w b = (tt, refl)
  send_all-Before n ((iface, h) ∷ rest) w b =
      let (all, same) = send_all-Before n rest (send_test beyond prober h w).1 b.1 in
      ((send-Before beyond prober old n iface h w b.0, all), ap suc same)

  -- Those that wait after a round that began with `n` tests left.
  abbrev Left : ℕ → List (Text × Health) → Type 0
  Left zero waiting = waiting ≡ []
  Left (suc n) waiting = All (Before n old) waiting

  Divided : ℕ → ℕ → List (Text × Health) × List (Text × Health) × World → Type 0
  Divided n count (waiting, erased, w) =
      Left n waiting × All (After beyond old) erased × (length waiting + length erased ≡ count)

  divide :
      (n count : ℕ) (iface : Text) (r : Bool × Health × World)
      (rest : List (Text × Health) × List (Text × Health) × World)
      → Received beyond prober old n iface r
      → Divided n count rest
      → Divided n (suc count) (
          if r.0
          then (rest.0, (iface, r.1) ∷ rest.1, rest.2)
          else ((iface, r.1) ∷ rest.0, rest.1, rest.2))
  unfolding Divided
  divide n count iface (true, h, w) rest r d = (d.0, (r, d.1), omega (arith, d.2))
  divide zero count iface (false, h, w) rest r d = absurd r
  divide (suc n) count iface (false, h, w) rest r d = ((r, d.0), d.1, omega (arith, d.2))

  recv_all-Divided :
      (n : ℕ) (coll : List (Text × Health)) (w : World)
      → All (Before n old) coll
      → Divided n (length coll) (recv_all beyond prober coll w)
  unfolding recv_all Divided
  recv_all-Divided zero [] w b = (refl, tt, refl)
  recv_all-Divided (suc n) [] w b = (tt, tt, refl)
  recv_all-Divided n ((iface, h) ∷ rest) w b =
      divide n (length rest) iface (recv_test beyond prober h w) _
        (recv-Received beyond prober old n iface h w b.0)
        (recv_all-Divided n rest (recv_test beyond prober h w).2 b.1)

  round-Divided :
      (n : ℕ) (coll : List (Text × Health)) (w : World)
      → All (Before n old) coll
      → Divided n (length coll) (round beyond prober coll w)
  unfolding round
  round-Divided n coll w b =
      let started = start_all-Before n coll w b in
      let sent = send_all-Before n _ (start_all beyond prober coll w).1 started.0 in
      rw (sym (sent.1 ∙ started.1)) (recv_all-Divided n _ _ sent.0)

  -- The rounds end with a result for each interface.
  Ended : ℕ → Option (List (Text × Health) × World) → Type 0
  Ended count o =
      (tested : List (Text × Health)) × (w : World) × (o ≡ some (tested, w))
      × All (After beyond old) tested
      × (length tested ≡ count)

  All-append :
      (P : Text × Health → Type 0) (xs ys : List (Text × Health))
      → All P xs
      → All P ys
      → All P (xs ++ ys)
  All-append P [] ys p q = q
  All-append P (x ∷ xs) ys p q = (p.0, All-append P xs ys p.1 q)

  later :
      (count : ℕ) (erased : List (Text × Health)) (n : ℕ)
      (o : Option (List (Text × Health) × World))
      → All (After beyond old) erased
      → n + length erased ≡ count
      → Ended n o
      → Ended count (elim o [ none ↦ none | some (rest, w) ↦ some (erased ++ rest, w) ])
  unfolding Ended
  later count erased n o all sum (tested, w, e, after, same) = (
    erased ++ tested,
    w,
    rw e refl,
    All-append (After beyond old) erased tested all after,
    omega (arith, length-append erased tested, same, sum),
  )

  rounds-Ended :
      (n : ℕ) (coll : List (Text × Health)) (w : World)
      → All (Before n old) coll
      → Ended (length coll) (rounds beyond prober (suc (suc n)) coll w)
  unfolding rounds Divided
  rounds-Ended n [] w b = unfold Ended in ([], w, refl, tt, refl)
  rounds-Ended zero (x ∷ xs) w b =
      let r = round beyond prober (x ∷ xs) w in
      let d = round-Divided zero (x ∷ xs) w b in
      later (length (x ∷ xs)) r.1 0 (rounds beyond prober 1 r.0 r.2) d.1
        (omega (arith, ap length d.0, d.2)) (rw d.0 (unfold Ended in ([], r.2, refl, tt, refl)))
  rounds-Ended (suc n) (x ∷ xs) w b =
      let r = round beyond prober (x ∷ xs) w in
      let d = round-Divided (suc n) (x ∷ xs) w b in
      later (length (x ∷ xs)) r.1 (length r.0) (rounds beyond prober (suc (suc n)) r.0 r.2) d.1 d.2
        (rounds-Ended n r.0 r.2 d.0)

-- The history of an interface at the start of a cycle.
abbrev pub histories : Data → Text → History
histories d iface = elim (find iface d.iface_health_coll) [
  | none ↦ new_history
  | some h ↦ h.hresults
]

length-map_values : (m : Map ℤ Test) (f : ℤ → Test → Test) → length (map_values f m) ≡ length m
unfolding map_values
length-map_values [] f = refl
length-map_values ((k, t) ∷ m) f = ap suc (length-map_values m f)

module _ (beyond : ℕ → ℤ) (prober : Prober) where
  open prober use {World}

  begin-Before :
      (n : ℕ) (order : List Text) (d : Data)
      → AllValues (λ (h : Health). length h.test_coll ≤ n) d.iface_health_coll
      → All (Before n (histories d)) (begin beyond prober order d)
  unfolding begin start_new_test_cycle
  begin-Before n [] d few = tt
  begin-Before n (iface ∷ order) d few =
      head (find iface d.iface_health_coll) refl
        (AllValues-find (λ (h : Health). length h.test_coll ≤ n) iface d.iface_health_coll few)
        (begin-Before n order d few)
    where
      head :
          (o : Option Health)
          → find iface d.iface_health_coll ≡ o
          → Holds (λ (h : Health). length h.test_coll ≤ n) o
          → All (Before n (histories d)) (begin beyond prober order d)
          → All (Before n (histories d)) (elim o as (λ (q : Option Health). List (Text × Health)) [
            | none ↦ begin beyond prober order d
            | some h ↦ (iface, start_new_test_cycle h) ∷ begin beyond prober order d
          ])
      head none e few rest = rest
      head (some h) e few rest = (
        (
          omega (arith, length-map_values h.test_coll (λ _ t. record t { state = k_none }), few),
          rw (histories, e) refl,
        ),
        rest,
      )

  -- If no interface has more than n tests, `LBPathTest::start` ends after at most n + 1 rounds, in
  -- whatever order it visits the interfaces and whatever the tests answer. As many interfaces leave
  -- `coll` as were in it, and to the history that each of them had at the start exactly one result
  -- has been pushed.
  pub path_test_ends :
      (n : ℕ) (order : List Text) (d : Data) (w : World)
      → AllValues (λ (h : Health). length h.test_coll ≤ n) d.iface_health_coll
      → (tested : List (Text × Health)) × (w' : World) × (path_test beyond prober
            (suc (suc n))
            order
            d
            w
          ≡ some (store beyond prober tested d, w'))
        × All (After beyond (histories d)) tested
        × (length tested ≡ length (begin beyond prober order d))
  unfolding path_test Ended
  path_test_ends n order d w few =
      let (tested, w', e, after, same) =
        rounds-Ended beyond prober (histories d) n (begin beyond prober order d) w
          (begin-Before n order d few) in
      (tested, w', rw (path_test, e) refl, after, same)
