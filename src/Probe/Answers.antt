-- ===== src/Probe/Answers.antt =====
-- What the loop of `LBTest::recv` makes of the answers that come in, and when it ends.
use mathlib.Core.Option
use vyatta_wanloadbalance.Common.{
  ℕ, zero, suc, ◌≤◌, ◌≡◌, ◌≢◌, refl, ap, ◌∙◌, true, false, List, [], ◌∷◌, Option, none, some, Map,
  ℤ, find, alter, find-alter_self, find-alter_ne, eq_ℤ, eq_ℤ_iff, key_dec, int_key, arith,
  Bool-cases, inl, inr, Option-cases, if◌then◌else◌,
}
use vyatta_wanloadbalance.Probe.{
  PktData, Host, Receiving, receive, receive_step, goes_on, receive_loop, elapsed,
}

map_kept :
    (f : PktData → PktData) (o : Option PktData) → o ≡ Option.map (λ p. if false then f p else p) o
map_kept f none = refl
map_kept f (some p) = refl

find-alter :
    (i k : ℤ) (f : PktData → PktData) (m : Map ℤ PktData)
    → find i (alter k f m) ≡ Option.map (λ p. if eq_ℤ i k then f p else p) (find i m)
find-alter i k f m = elim (key_dec i k) [
  | yes e ↦ rw (e, (eq_ℤ_iff k k).1 refl) (find-alter_self k f m)
  | no ne ↦ elim (Bool-cases (eq_ℤ i k)) [
    | inl same ↦ absurd (ne ((eq_ℤ_iff i k).0 same))
    | inr other ↦ rw other (find-alter_ne i k f m ne ∙ map_kept f (find i m))
  ]
]

map-map :
    (f g : PktData → PktData) (o : Option PktData)
    → Option.map g (Option.map f o) ≡ Option.map (λ p. g (f p)) o
map-map f g none = refl
map-map f g (some p) = refl

map-id : (o : Option PktData) → o ≡ Option.map (λ p. p) o
map-id none = refl
map-id (some p) = refl

map_ne_none :
    (f : PktData → PktData) (o : Option PktData) {o' : Option PktData}
    → o' ≡ Option.map f o
    → o ≢ none
    → o' ≢ none
map_ne_none f none e h k = h refl
map_ne_none f (some p) e h k = cc

module _ (host : Host) (sock : ℤ) where
  open host use {World, time, uptime}

  -- The world after a number of calls of `receive`.
  abbrev pub after : ℕ → World → World
  after zero w = w
  after (suc n) w = after n (receive host sock w).1

  module _ (sent : ℕ × ℕ) (timeout : ℕ) where
    -- The loop ends by its own test if the uptime has reached the timeout after as many calls of
    -- `receive` as it has fuel.
    pub receive_loop_ends :
        (n : ℕ) (r : Receiving host)
        → r.cur_time ≡ uptime r.world
        → timeout ≤ uptime (after n r.world)
        → goes_on host timeout (receive_loop host n sock sent timeout r) ≡ false
    unfolding receive_loop receive_step goes_on
    receive_loop_ends zero r now late = ground arith
    receive_loop_ends (suc n) r now late = elim (Bool-cases (goes_on host timeout r)) [
      | inl on ↦
          rw (receive_loop, on) (receive_loop_ends n (receive_step host sock sent r) refl late)
      | inr off ↦ rw (receive_loop, off) off
    ]

    -- The answers that the loop reads, with their times.
    pub answers : ℕ → Receiving host → List (ℤ × (ℕ × ℕ))
    answers zero r = []
    answers (suc n) r = elim (goes_on host timeout r) [
      | true ↦
          let (id, w) = receive host sock r.world in
          (id, time w) ∷ answers n (receive_step host sock sent r)
      | false ↦ []
    ]

    -- What answers make of the packet with a number: the last one that names it counts.
    pub marked : ℤ → List (ℤ × (ℕ × ℕ)) → PktData → PktData
    marked id [] p = p
    marked id ((j, at) ∷ rest) p =
        marked id rest (if eq_ℤ id j then record p { rtt = elapsed sent at } else p)

    -- After the loop every packet that was sent has the interface that it had and the time of the
    -- last answer with its number that the loop read, if it read one; no packet is added or lost.
    pub find-receive_loop :
        (n : ℕ) (r : Receiving host) (id : ℤ)
        → find id (receive_loop host n sock sent timeout r).results
          ≡ Option.map (marked id (answers n r)) (find id r.results)
    unfolding receive_loop receive_step answers marked
    find-receive_loop zero r id = map-id (find id r.results)
    find-receive_loop (suc n) r id = elim (Bool-cases (goes_on host timeout r)) [
      | inl on ↦
          rw (receive_loop, answers, on)
            (find-receive_loop n (receive_step host sock sent r) id
              ∙ ap (Option.map (marked id (answers n (receive_step host sock sent r))))
                  (find-alter id _ _ r.results)
              ∙ map-map _ _ (find id r.results))
      | inr off ↦ rw (receive_loop, answers, off) (map-id (find id r.results))
    ]

    -- The next answers that come in, as many as `n`: all have known numbers, and none is `id`.
    abbrev pub AllElse : ℕ → ℤ → Map ℤ PktData → World → Type 0
    AllElse zero id m w = Unit {0}
    AllElse (suc n) id m w =
        (find (receive host sock w).0 m ≢ none)
        × (id ≢ (receive host sock w).0)
        × AllElse n id m (receive host sock w).1

    AllElse-alter :
        (n : ℕ) (id k : ℤ) (f : PktData → PktData) (m : Map ℤ PktData) (w : World)
        → AllElse n id m w
        → AllElse n id (alter k f m) w
    AllElse-alter zero id k f m w a = tt
    AllElse-alter (suc n) id k f m w a = (
      map_ne_none _ (find (receive host sock w).0 m) (find-alter _ k f m) a.0,
      a.1,
      AllElse-alter n id k f m _ a.2,
    )

    one_less :
        (r : Receiving host) (n : ℕ)
        → r.pending ≡ suc n
        → find (receive host sock r.world).0 r.results ≢ none
        → (receive_step host sock sent r).pending ≡ n
    unfolding receive_step
    one_less r n e known = elim (Option-cases (find (receive host sock r.world).0 r.results)) [
      | inl unknown ↦ absurd (known unknown)
      | inr (p, found) ↦ rw (receive_step, found) (omega arith)
    ]

    -- If as many answers come first as packets are pending, all with known numbers, but none with
    -- that of one packet, then that packet counts as not answered whatever comes later: the loop
    -- takes an answer that comes twice for the answers of two packets.
    pub answer_lost :
        (fuel n : ℕ) (r : Receiving host) (id : ℤ)
        → r.pending ≡ n
        → AllElse n id r.results r.world
        → find id (receive_loop host fuel sock sent timeout r).results ≡ find id r.results
    unfolding receive_loop receive_step
    answer_lost zero n r id e a = refl
    answer_lost (suc fuel) zero r id e a =
        let off : goes_on host timeout r ≡ false = unfold goes_on in ground arith in
        rw (receive_loop, off) refl
    answer_lost (suc fuel) (suc n) r id e a = elim (Bool-cases (goes_on host timeout r)) [
      | inr off ↦ rw (receive_loop, off) refl
      | inl on ↦
          rw (receive_loop, on)
            (answer_lost fuel n (receive_step host sock sent r) id (one_less r n e a.0)
                (AllElse-alter n id _ _ r.results _ a.2)
              ∙ find-alter_ne id _ _ r.results a.1)
    ]
