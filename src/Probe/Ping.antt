-- ===== src/Probe/Ping.antt =====
-- A ping from the request to the verdict.
use vyatta_wanloadbalance.Common.{
  ℕ, zero, suc, ◌+◌, ◌<◌, ◌≡◌, ◌^◌, refl, ap, ◌∙◌, Bool, true, false, [], ◌∷◌, Option, none, some,
  Text, ◌-◌, ℤ, pos, minus_one, Bytes, is_empty, eq_ℤ, length, arith, find, alter, insert,
  compare_ℤ_refl, int_key, text_eq_refl, lit, if◌then◌else◌,
}
use vyatta_wanloadbalance.Data.{Health, Test}
use vyatta_wanloadbalance.Probe.{
  Host, Engine, Receiving, start, receive, receive_step, receive_loop, goes_on, judge, take_result,
  recv, receive_all, begin_receiving, elapsed,
}
use vyatta_wanloadbalance.Probe.Icmp.{
  target_of, with_status, next_icmp_id, icmp_packet, send_icmp, send_ping,
}
use vyatta_wanloadbalance.Probe.Icmp.Request.{echo_reply, decode-echo_reply}
use vyatta_wanloadbalance.Probe.Queues.{verdict_of, settle_verdict}

module _ (host : Host) where
  open host use {
    World, time, uptime, stack, select, recv_bytes, getpid, gethostbyname, bind_device, sendto,
  }

  next_icmp_id-lt : (id : ℕ) → next_icmp_id id < 2 ^ 16
  unfolding next_icmp_id
  next_icmp_id-lt id = omega arith

  -- The loop when nothing is pending.
  loop_done :
      (fuel : ℕ) (sock : ℤ) (sent : ℕ × ℕ) (timeout : ℕ) (r : Receiving host)
      → r.pending ≡ 0
      → receive_loop host fuel sock sent timeout r ≡ r
  unfolding receive_loop goes_on
  loop_done zero sock sent timeout r e = refl
  loop_done (suc fuel) sock sent timeout r e =
      let off : goes_on host timeout r ≡ false = ground arith in rw (receive_loop, off) refl

  -- What the loop begins with if one packet has been sent, and what its answer makes of that.
  abbrev one_pending : ℕ → Text → World → Receiving host
  one_pending id iface w = record {
    world = w;
    cur_time = uptime w;
    pending = 1;
    results = (pos id, record { iface = iface; rtt = minus_one }) ∷ [];
  }

  abbrev one_answered : ℕ → Text → ℕ × ℕ → World → Receiving host
  one_answered id iface sent w2 = record {
    world = w2;
    cur_time = uptime w2;
    pending = 0;
    results = (pos id, record { iface = iface; rtt = elapsed sent (time w2) }) ∷ [];
  }

  module _ (id : ℕ) (iface : Text) (sock : ℤ) (sent : ℕ × ℕ) (w w2 : World)
      (read : receive host sock w ≡ (pos id, w2)) where
    one_step : receive_step host sock sent (one_pending id iface w) ≡ one_answered id iface sent w2
    unfolding receive_step find alter
    one_step = ap step_with read ∙ rw (step_with, find, alter, compare_ℤ_refl (pos id)) refl
      where
        step_with : ℤ × World → Receiving host
        step_with (j, w') = record {
          world = w';
          cur_time = uptime w';
          pending = elim (find j (one_pending id iface w).results) [ none ↦ 1 | some p ↦ 1 - 1 ];
          results =
              alter j (λ p. record p { rtt = elapsed sent (time w') })
                (one_pending id iface w).results;
        }

    -- The loop when one packet is pending and its number is read.
    one_answer :
        (fuel : ℕ)
        → receive_loop host (suc fuel) sock sent (uptime w + 5) (one_pending id iface w)
          ≡ one_answered id iface sent w2
    unfolding receive_loop
    one_answer fuel =
        let on : goes_on host (uptime w + 5) (one_pending id iface w) ≡ true =
          unfold goes_on in ground arith in
        rw (receive_loop, on, one_step) (loop_done fuel sock sent (uptime w + 5) _ refl)

  -- A host at an address on the network that answers echo requests as RFC 792 has it, while nothing
  -- else comes in: after a packet has been sent to it, `select` wakes, and `recv` reads an IP header,
  -- and the packet as a reply. The stack holds as many bytes as a buffer needs.
  pub record Echo (send_sock recv_sock : ℤ) (address : ℕ) : Type 0 where
    pub header : World → Bytes
    pub code : World → ℕ
    pub sum : World → ℕ
    pub sum' : World → ℕ
    pub header_size : (w : World) → length (header w) ≡ 20
    pub sizes : (n : ℕ) (w : World) → length (stack n w) ≡ n
    pub wakes :
        (packet : Bytes) (w : World)
        → eq_ℤ (select recv_sock (sendto send_sock packet address 0 w)).0 (pos 0) ≡ false
    pub replies :
        (packet : Bytes) (w : World)
        → let w' = (select recv_sock (sendto send_sock packet address 0 w)).1 in
          (recv_bytes recv_sock w').0
          ≡ some (echo_reply (header w') (code w') (sum w') (sum' w') packet)

  module _ (h : Health) (t : Test) (e : Engine) (w w1 w2 : World) (address fuel : ℕ)
      (target : is_empty (target_of h t) ≡ false) (named : is_empty h.interface ≡ false)
      (resolves : gethostbyname (target_of h t) w ≡ (some address, w1))
      (binds : bind_device e.send_icmp_sock h.interface w1 ≡ (true, w2))
      (echo : Echo e.send_icmp_sock e.recv_icmp_sock address) where
    id : ℕ
    id = next_icmp_id e.packet_id

    w' : World
    w' = (send_ping host h t (start e) w).2

    sent_engine : (send_ping host h t (start e) w).1 ≡ record (start e) {
      packet_id = id;
      results = (pos id, record { iface = h.interface; rtt = minus_one }) ∷ [];
    }
    unfolding send_ping start insert id
    sent_engine = rw target refl

    sent_test : (send_ping host h t (start e) w).0 ≡ with_status (lit "ping") h t
    unfolding send_ping
    sent_test = rw target refl

    -- The verdict on the only result.
    judged :
        (rtt : ℤ)
        → (judge h
            (with_status (lit "ping") h t)
            ((pos id, record { iface = h.interface; rtt = rtt }) ∷ [])).0
          ≡ verdict_of t (some rtt)
    unfolding judge take_result with_status
    judged rtt =
        rw (take_result, text_eq_refl h.interface)
          (settle_verdict (with_status (lit "ping") h t) (some rtt)).0

    id-lt : id < 2 ^ 16
    unfolding id
    id-lt = next_icmp_id-lt e.packet_id

    request : Bytes
    request = icmp_packet (stack 40 w2) (getpid w2) (time w2) id

    handed_on :
        (send_ping host h t (start e) w).2
        ≡ send_icmp host (start e) h.interface (target_of h t) id w
    unfolding send_ping id start
    handed_on = rw target refl

    sent_icmp :
        send_icmp host (start e) h.interface (target_of h t) id w
        ≡ sendto e.send_icmp_sock request address 0 w2
    unfolding send_icmp start request
    sent_icmp =
        rw (send_icmp, named, target) (ap after_lookup resolves ∙ ap (after_bind address) binds)
      where
        after_bind : ℕ → Bool × World → World
        after_bind addr (bound, w3) =
            let packet = icmp_packet (stack 40 w3) (getpid w3) (time w3) id in
            if bound then sendto e.send_icmp_sock packet addr 0 w3 else w3

        after_lookup : Option ℕ × World → World
        after_lookup (o, w3) = elim o [
          | none ↦ w3
          | some addr ↦ after_bind addr (bind_device e.send_icmp_sock h.interface w3)
        ]

    -- `send` gives it to `sendto`.
    sent_world : w' ≡ sendto e.send_icmp_sock request address 0 w2
    unfolding w'
    sent_world = handed_on ∙ sent_icmp

    woken : eq_ℤ (select e.recv_icmp_sock w').0 (pos 0) ≡ false
    woken = rw sent_world (echo.wakes request w2)

    replied :
        let w3 = (select e.recv_icmp_sock w').1 in
        (recv_bytes e.recv_icmp_sock w3).0
        ≡ some (echo_reply (echo.header w3) (echo.code w3) (echo.sum w3) (echo.sum' w3) request)
    replied = rw sent_world (echo.replies request w2)

    -- The world after the answer has been read.
    abbrev answered_at : World → World
    answered_at x = (recv_bytes e.recv_icmp_sock (select e.recv_icmp_sock x).1).1

    read : receive host e.recv_icmp_sock w' ≡ (pos id, answered_at w')
    unfolding receive request
    read =
        rw (woken, replied)
          (let w3 = (select e.recv_icmp_sock w').1 in
            ap (λ z. (z, answered_at w'))
              (decode-echo_reply (stack 40 w2) (stack 56 w') (echo.header w3) (getpid w2) (time w2)
                id (echo.code w3) (echo.sum w3) (echo.sum' w3) (echo.sizes 40 w2) (echo.sizes 56 w')
                (echo.header_size w3) (id-lt)))

    -- If an interface has a host to ping whose name resolves, the socket can be bound to the interface,
    -- and that host answers the request, with nothing else coming in before: then `recv` answers the
    -- time that it computes for the answer where that is in time, and -1 otherwise.
    pub ping_answered :
        let (t', e', w') = send_ping host h t (start e) w in
        (recv host (suc fuel) h t' e' w').0
        ≡ verdict_of t (
            some (
              elapsed
                (time w')
                (time (recv_bytes e.recv_icmp_sock (select e.recv_icmp_sock w').1).1)))
    unfolding recv receive_all begin_receiving w' id start
    ping_answered =
        rw
          (
            sent_engine,
            sent_test,
            one_answer id h.interface e.recv_icmp_sock (time w') w' (answered_at w') read fuel,
          )
          (judged (elapsed (time w') (time (answered_at w'))))
