-- ===== src/Probe/Numbers.antt =====
-- The numbers of the packets, which all tests share.
use vyatta_wanloadbalance.Common.{
  ℕ, suc, ◌+◌, ◌^◌, ◌≤◌, ◌<◌, ◌≡◌, ◌≢◌, ◌⊎◌, inl, List, [], ◌∷◌, All, length, arith,
}
use vyatta_wanloadbalance.Probe.Icmp.{next_icmp_id}
use vyatta_wanloadbalance.Probe.Ttl.{get_new_packet_id, max_port_id}

-- The tests that send a packet.
pub data Sender : Type 0 where
  pinger : Sender
  datagram : Sender

abbrev pub next_id : Sender → ℕ → ℕ
next_id pinger id = next_icmp_id id
next_id datagram id = get_new_packet_id id

-- The numbers that tests take one after the other, `_packet_id` being `id` before.
abbrev pub ids : List Sender → ℕ → List ℕ
ids [] id = []
ids (s ∷ senders) id = next_id s id ∷ ids senders (next_id s id)

abbrev pub Distinct : List ℕ → Type 0
Distinct [] = Unit {0}
Distinct (x ∷ xs) = All (λ y. y ≢ x) xs × Distinct xs

-- A number grows by one, or falls by at least 22233.
next_id_step :
    (s : Sender) (id : ℕ)
    → id ≤ max_port_id
    → (next_id s id ≤ max_port_id) × ((next_id s id ≡ id + 1) ⊎ (next_id s id + 22233 ≤ id + 1))
unfolding next_icmp_id get_new_packet_id
next_id_step pinger id h = ground arith
next_id_step datagram id h = ground arith

-- `age` numbers after `x`, the number is not `x`.
later_differ :
    (x age id : ℕ) (senders : List Sender)
    → id ≤ max_port_id
    → (id ≡ x + age) ⊎ (id + 22233 ≤ x + age)
    → age + length senders < 22233
    → All (λ y. y ≢ x) (ids senders id)
later_differ x age id [] h p few = tt
later_differ x age id (s ∷ senders) h p few =
    let step = next_id_step s id h in
    let place : (next_id s id ≡ x + suc age) ⊎ (next_id s id + 22233 ≤ x + suc age) =
      ground (arith, step) in
    (
      λ e. ground (arith, place),
      later_differ x (suc age) (next_id s id) senders step.0 place (omega arith),
    )

-- In at most 22233 packets, by pings and datagrams in any order, no number comes twice, and each
-- one fits 16 bits.
pub ids-Distinct :
    (senders : List Sender) (id : ℕ)
    → id ≤ max_port_id
    → length senders ≤ 22233
    → Distinct (ids senders id) × All (λ y. y < 2 ^ 16) (ids senders id)
ids-Distinct [] id h few = (tt, tt)
ids-Distinct (s ∷ senders) id h few =
    let step = next_id_step s id h in
    let rest = ids-Distinct senders (next_id s id) step.0 (omega arith) in
    (
      (
        later_differ (next_id s id) 0 (next_id s id) senders step.0 (inl (omega arith))
            (omega arith),
        rest.0,
      ),
      (omega (arith, step), rest.1),
    )
