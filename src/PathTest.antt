-- ===== src/PathTest.antt =====
-- src/lbdata.cc and src/lbpathtest.cc: the iteration of `LBHealth` over its tests, and
-- `LBPathTest::start`, which tests all interfaces round by round.
pub mod Steps
pub mod Rounds
pub mod Kept
use vyatta_wanloadbalance.Common.{
  ℕ, zero, suc, ◌+◌, Bool, true, false, not, ◌||◌, is_empty, List, [], ◌∷◌, ◌++◌, Option, none,
  some, Text, Map, ℤ, pos, minus_one, leb_ℤ, get_elem?, set, find, alter, map_values, int_key,
  text_key, if◌then◌else◌,
}
use vyatta_wanloadbalance.Data.{Data, Health, Test, k_none}
use vyatta_wanloadbalance.Health.{put}

-- The functions of `LBTest`: what `init`, which the constructor calls, does to the world, where `none`
-- is undefined behaviour; `start`, `send` and `recv`, which returns a time or a negative number; and
-- the clock that `put` reads.
pub record Prober : Type 1 where
  pub World : Type 0
  pub init : World → Option World
  pub start : Test → World → Test × World
  pub send : Health → Test → World → Test × World
  pub recv : Health → Test → World → ℤ × Test × World
  pub now : World → ℕ

-- Whether an interface has a test.
unfoldable pub has_test : Map Text Health → Bool
has_test [] = false
has_test ((iface, h) ∷ rest) = not (is_empty h.test_coll) || has_test rest

-- `LBTest::LBTest` on the world, once for all tests of a configuration: `init` does nothing when it is
-- called again.
unfoldable pub construct_tests : (prober : Prober) → Data → prober.World → Option prober.World
unfolding has_test
construct_tests prober d w = if has_test d.iface_health_coll then prober.init w else some w

-- `LBHealth::start_new_test_cycle`.
unfoldable pub start_new_test_cycle : Health → Health
start_new_test_cycle h = record h {
  test_coll = map_values (λ _ t. record t { state = k_none }) h.test_coll;
  test_iter = 0;
}

-- The test at `_test_iter`; `none` is `end()`.
unfoldable pub current : Health → Option (ℤ × Test)
current h = get_elem? h.test_coll h.test_iter

-- What a call through `_test_iter` leaves of its test.
unfoldable pub set_current : ℤ → Test → Health → Health
set_current num t h = record h { test_coll = set h.test_coll h.test_iter (num, t) }

module _ (beyond : ℕ → ℤ) (prober : Prober) where
  open prober use {World, start, send, recv, now}

  -- `LBHealth::start_new_test`.
  unfoldable pub start_new_test : Health → World → Health × World
  start_new_test h w = elim (current h) [
    | none ↦ (h, w)
    | some (num, t) ↦ let (t', w') = start t w in (set_current num t' h, w')
  ]

  -- `LBHealth::send_test`.
  unfoldable pub send_test : Health → World → Health × World
  send_test h w = elim (current h) [
    | none ↦ (h, w)
    | some (num, t) ↦ let (t', w') = send h t w in (set_current num t' h, w')
  ]

  -- `LBHealth::recv_test`: whether it returns 0, which ends the tests of the interface.
  unfoldable pub recv_test : Health → World → Bool × Health × World
  recv_test h w = elim (current h) [
    | none ↦ (true, put beyond (now w) minus_one h, w)
    | some (num, t) ↦
        let (rtt, t', w') = recv h t w in
        let tested = set_current num t' h in
        let next = record tested { test_iter = h.test_iter + 1 } in
        if leb_ℤ (pos 0) rtt then (true, put beyond (now w') rtt next, w') else (false, next, w')
  ]

  -- The interfaces that `coll` points to, in the order of their addresses.
  abbrev pub Waiting : Type 0
  Waiting = List (Text × Health)

  unfoldable pub start_all : Waiting → World → Waiting × World
  start_all [] w = ([], w)
  start_all ((iface, h) ∷ rest) w =
      let (h', w1) = start_new_test h w in
      let (rest', w2) = start_all rest w1 in ((iface, h') ∷ rest', w2)

  unfoldable pub send_all : Waiting → World → Waiting × World
  send_all [] w = ([], w)
  send_all ((iface, h) ∷ rest) w =
      let (h', w1) = send_test h w in
      let (rest', w2) = send_all rest w1 in ((iface, h') ∷ rest', w2)

  -- The loop over `recv_test`: the interfaces that stay in `coll`, and those that are erased.
  unfoldable pub recv_all : Waiting → World → Waiting × Waiting × World
  recv_all [] w = ([], [], w)
  recv_all ((iface, h) ∷ rest) w =
      let (done, h', w1) = recv_test h w in
      let (waiting, erased, w2) = recv_all rest w1 in
      if done then (waiting, (iface, h') ∷ erased, w2) else ((iface, h') ∷ waiting, erased, w2)

  -- One round of the outer loop.
  unfoldable pub round : Waiting → World → Waiting × Waiting × World
  round coll w =
      let (started, w1) = start_all coll w in
      let (sent, w2) = send_all started w1 in recv_all sent w2

  -- The outer loop, on fuel: the interfaces in the order in which they leave `coll`.
  unfoldable pub rounds : ℕ → Waiting → World → Option (Waiting × World)
  rounds zero coll w = none
  rounds (suc fuel) [] w = some ([], w)
  rounds (suc fuel) (x ∷ xs) w =
      let (waiting, erased, w1) = round (x ∷ xs) w in
      elim (rounds fuel waiting w1) [ none ↦ none | some (later, w2) ↦ some (erased ++ later, w2) ]

  -- The interfaces of a list of names, with a new cycle of tests started.
  unfoldable pub begin : List Text → Data → Waiting
  begin [] d = []
  begin (iface ∷ order) d = elim (find iface d.iface_health_coll) [
    | none ↦ begin order d
    | some h ↦ (iface, start_new_test_cycle h) ∷ begin order d
  ]

  unfoldable pub store : Waiting → Data → Data
  store [] d = d
  store ((iface, h) ∷ rest) d =
      store rest (record d { iface_health_coll = alter iface (λ _. h) d.iface_health_coll })

  -- `LBPathTest::start`, where `order` is the order of the interfaces in memory.
  unfoldable pub path_test : ℕ → List Text → Data → World → Option (Data × World)
  path_test fuel order d w = elim (rounds fuel (begin order d) w) [
    | none ↦ none
    | some (tested, w') ↦ some (store tested d, w')
  ]
