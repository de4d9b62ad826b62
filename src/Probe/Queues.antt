-- ===== src/Probe/Queues.antt =====
-- The results as queues, one for each interface: how `LBTest::recv` judges a test.
use vyatta_wanloadbalance.Common.{
  ◌≡◌, ◌≢◌, refl, ap, ◌∙◌, Bool, ◌&&◌, List, [], ◌∷◌, Option, none, some, Text, Map, ℤ, pos,
  minus_one, leb_ℤ, ltb_ℤ, text_eq, text_eq_iff, arith, if◌then◌else◌,
}
use vyatta_wanloadbalance.Data.{Health, Test, k_success, k_failure}
use vyatta_wanloadbalance.Probe.{PktData, take_result, settle, judge}

-- The results of an interface, in the order of the numbers of the packets.
pub queue : Text → Map ℤ PktData → List ℤ
queue iface [] = []
queue iface ((id, p) ∷ rest) =
    let later = queue iface rest in if text_eq p.iface iface then p.rtt ∷ later else later

abbrev pub tail : List ℤ → List ℤ
tail [] = []
tail (x ∷ xs) = xs

abbrev pub head? : List ℤ → Option ℤ
head? [] = none
head? (x ∷ xs) = some x

-- A time that is in time for a test.
abbrev pub in_time : Test → ℤ → Bool
in_time t rtt = leb_ℤ (pos 0) rtt && ltb_ℤ rtt t.resp_time

abbrev pub verdict_of : Test → Option ℤ → ℤ
verdict_of t none = minus_one
verdict_of t (some rtt) = if in_time t rtt then rtt else minus_one

take_result_head :
    (iface : Text) (m : Map ℤ PktData)
    → ((take_result iface m).0 ≡ head? (queue iface m))
      × (queue iface (take_result iface m).1 ≡ tail (queue iface m))
unfolding take_result queue
take_result_head iface [] = (refl, refl)
take_result_head iface ((id, p) ∷ rest) = ground (arith, take_result_head iface rest)

take_result_other :
    (iface other : Text) (m : Map ℤ PktData)
    → other ≢ iface
    → queue other (take_result iface m).1 ≡ queue other m
unfolding take_result queue
take_result_other iface other [] ne = refl
take_result_other iface other ((id, p) ∷ rest) ne = ground (
  arith,
  take_result_other iface other rest ne,
  text_eq_iff p.iface iface,
  text_eq_iff p.iface other,
)

pub settle_verdict :
    (t : Test) (o : Option ℤ)
    → ((settle t o).0 ≡ verdict_of t o)
      × ((settle t o).1
          ≡ record t { state = if leb_ℤ (pos 0) (settle t o).0 then k_success else k_failure })
unfolding settle
settle_verdict t none = (refl, refl)
settle_verdict t (some rtt) = ground arith

-- Each interface has its own queue of results. A call of `recv` takes the first result of the
-- interface and leaves those of every other interface alone. It answers the time of that result if
-- it is in time, and -1 otherwise or if there is none; the test is a success exactly if the answer
-- is not negative.
pub judge_takes :
    (h : Health) (t : Test) (m : Map ℤ PktData) (other : Text)
    → other ≢ h.interface
    → let (rtt, t', m') = judge h t m in
      (rtt ≡ verdict_of t (head? (queue h.interface m)))
      × (queue h.interface m' ≡ tail (queue h.interface m))
      × (queue other m' ≡ queue other m)
      × (t' ≡ record t { state = if leb_ℤ (pos 0) rtt then k_success else k_failure })
unfolding judge
judge_takes h t m other ne =
    let (head, rest) = take_result_head h.interface m in
    let (rtt, state) = settle_verdict t (take_result h.interface m).0 in
    (rtt ∙ ap (verdict_of t) head, rest, take_result_other h.interface other m ne, state)
