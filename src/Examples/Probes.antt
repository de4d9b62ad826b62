-- ===== src/Examples/Probes.antt =====
-- A host on which every ping is answered by the first packet that comes in, and probes through it.
use vyatta_wanloadbalance.Common.{
  ◌==◌, length-replicate, ◌%◌, ◌≢◌, length, ℕ, ◌+◌, ◌^◌, ◌≤◌, ◌<◌, ◌≡◌, ◌≢◌, refl, true, false,
  List, [], ◌∷◌, none, some, Text, Map, ℤ, pos, minus_one, Bytes, IsByte, All, All-replicate,
  replicate, take, drop, overlay, find, arith, lit, is_empty, leb_ℤ, ◌<ℤ◌, compare_ℤ, compare_text,
  text_eq, ap, get_or, int_key, if◌then◌else◌,
}
use mathlib.Core.Option
use vyatta_wanloadbalance.Data.{Test, ping, k_none, k_success, k_failure}
use vyatta_wanloadbalance.Probe.{
  Host, new_engine, PktData, Receiving, ended, start, decode, elapsed, judge, recv, receive,
  goes_on, receive_loop,
}
use vyatta_wanloadbalance.Probe.Checksum.Valid.{network_sum}
use vyatta_wanloadbalance.Probe.Icmp.{icmp_packet, send_ping, target_of}
use vyatta_wanloadbalance.Probe.Icmp.Request.{icmp_packet-checksum, echo_reply, decode-echo_reply}
use vyatta_wanloadbalance.Probe.Ttl.{ttl_packet}
use vyatta_wanloadbalance.Probe.Ttl.Datagram.{udp_sum, udp_length, ttl_packet-checksums}
use vyatta_wanloadbalance.Probe.Ttl.Exceeded.{time_exceeded, decode-time_exceeded}
use vyatta_wanloadbalance.Probe.Numbers.{Sender, pinger, datagram, ids, Distinct, ids-Distinct}
use vyatta_wanloadbalance.Probe.Elapsed.{millis, elapsed_judges}
use vyatta_wanloadbalance.Probe.Answers.{
  after, receive_loop_ends, answers, marked, find-receive_loop, answer_lost,
}
use vyatta_wanloadbalance.Probe.Queues.{queue, head?, tail, verdict_of, judge_takes}
use vyatta_wanloadbalance.Probe.Ping.{Echo, ping_answered}
use vyatta_wanloadbalance.Examples.Fixtures.{eth0, eth1, up}

abbrev zeros : ℕ → Bytes
zeros n = replicate n 0

zeros-IsByte : (n : ℕ) → All IsByte (zeros n)
zeros-IsByte n = All-replicate IsByte n 0 (omega arith)

-- The reply to the first ping.
abbrev reply : Bytes
reply = echo_reply (zeros 20) 0 0 0 (icmp_packet (zeros 40) 7 (5, 6) 1)

-- Each packet takes a second.
abbrev pub lab : Host
lab = record {
  World = ℕ;
  time = λ w. (w, 0);
  uptime = λ w. w;
  getpid = λ w. 7;
  stack = λ n w. zeros n;
  getprotobyname = λ name w. some (pos 1);
  socket = λ family type protocol w. (pos 3, w);
  set_reuse = λ sock w. w;
  bind_any = λ sock w. w;
  close = λ sock w. w;
  select = λ sock w. (pos 1, w);
  recv_bytes = λ sock w. (some reply, w + 1);
  gethostbyname = λ name w. (some 1, w);
  inet_addr = λ name. 1;
  bind_device = λ sock iface w. (true, w);
  sendto = λ sock packet addr port w. w;
  pipe = λ w. (true, w);
  spawn = λ cmd w. w;
  select_pipe = λ w. (true, w);
  read_pipe = λ w. (ended, w);
  wait = λ w. (0, w);
}

icmp_packet-checksum_example :
    (length (icmp_packet (zeros 40) 7 (5, 6) 300) ≡ 40)
    × (network_sum (icmp_packet (zeros 40) 7 (5, 6) 300) % 65535 ≡ 0)
icmp_packet-checksum_example = icmp_packet-checksum (zeros 40) 7 (5, 6) 300 refl (zeros-IsByte 40)

decode-echo_reply_example :
    decode (overlay (echo_reply (zeros 20) 0 0 0 (icmp_packet (zeros 40) 7 (5, 6) 300)) (zeros 56))
    ≡ pos 300
decode-echo_reply_example =
    decode-echo_reply (zeros 40) (zeros 56) (zeros 20) 7 (5, 6) 300 0 0 0 refl refl refl
      (omega arith)

ttl_packet-checksums_example :
    let packet = take 36 (ttl_packet (zeros 42) 7 3 16777343 134744072 40000) in
    (network_sum (take 20 packet) % 65535 ≡ 0)
    × (udp_sum packet 16 % 65535 ≡ 0)
    × (udp_length packet ≡ 2048)
    × (udp_sum packet (udp_length packet) % 65535 ≢ 0)
ttl_packet-checksums_example =
    ttl_packet-checksums (zeros 42) 7 3 16777343 134744072 40000 refl (zeros-IsByte 42)

decode-time_exceeded_example :
    decode (
      overlay
        (time_exceeded (zeros 20) (zeros 7) (ttl_packet (zeros 42) 7 3 16777343 134744072 40000))
        (zeros 56))
    ≡ pos 40000
decode-time_exceeded_example =
    decode-time_exceeded (zeros 42) (zeros 56) (zeros 20) (zeros 7) 7 3 16777343 134744072 40000
      refl refl refl refl (omega arith)

-- A ping, a datagram and a ping, from a number at which the first one starts over.
abbrev three_senders : List Sender
three_senders = pinger ∷ datagram ∷ pinger ∷ []

ids-Distinct_example :
    Distinct (ids three_senders 32766) × All (λ y. y < 2 ^ 16) (ids three_senders 32766)
ids-Distinct_example = ids-Distinct three_senders 32766 (omega arith) (omega arith)

-- A ping at 0.9 s, which is answered at 1.1 s.
elapsed_judges_example :
    (900000 ≤ 100000 → elapsed (0, 900000) (1, 100000) ≡ pos (millis (0, 900000) (1, 100000)))
    × (100000 < 900000
        → 900000 < 100000 + 499000
        → elapsed (0, 900000) (1, 100000) <ℤ pos (millis (0, 900000) (1, 100000)))
    × (100000 + 501000 < 900000
        → pos (millis (0, 900000) (1, 100000)) <ℤ elapsed (0, 900000) (1, 100000))
elapsed_judges_example = elapsed_judges 0 900000 1 100000 (omega arith) (omega arith) (omega arith)

abbrev two_results : Map ℤ PktData
two_results =
    (pos 1, record { iface = eth0; rtt = minus_one })
    ∷ (pos 2, record { iface = eth1; rtt = minus_one })
    ∷ []

abbrev receiving : Receiving lab
receiving = record { world = 10; cur_time = 10; pending = 2; results = two_results }

abbrev loop : ℕ → Receiving lab
loop fuel = receive_loop lab fuel (pos 3) (10, 0) 15 receiving

late : 15 ≤ after lab (pos 3) 5 10
unfolding receive
late = omega arith

receive_loop_ends_example : goes_on lab 15 (loop 5) ≡ false
receive_loop_ends_example = receive_loop_ends lab (pos 3) (10, 0) 15 5 receiving refl late

find-receive_loop_example :
    find (pos 2) (loop 5).results
    ≡ Option.map
        (marked lab (pos 3) (10, 0) 15 (pos 2) (answers lab (pos 3) (10, 0) 15 5 receiving))
        (find (pos 2) two_results)
find-receive_loop_example = find-receive_loop lab (pos 3) (10, 0) 15 5 receiving (pos 2)

-- Every answer is that of the first packet.
number : (w : ℕ) → (receive lab (pos 3) w).0 ≡ pos 1
unfolding receive
number w =
    decode-echo_reply (zeros 40) (zeros 56) (zeros 20) 7 (5, 6) 1 0 0 0 refl refl refl (omega arith)

known : find (pos 1) two_results ≢ none
unfolding find compare_ℤ
known e = cc

same_again :
    (w : ℕ)
    → (find (receive lab (pos 3) w).0 two_results ≢ none) × (pos 2 ≢ (receive lab (pos 3) w).0)
same_again w = rw (number w) (known, λ e. cc)

answer_lost_example : find (pos 2) (loop 5).results ≡ find (pos 2) two_results
answer_lost_example =
    answer_lost lab (pos 3) (10, 0) 15 5 2 receiving (pos 2) refl
      ((same_again 10).0, (same_again 10).1, ((same_again _).0, (same_again _).1, tt))

abbrev a_ping : Test
a_ping = record { kind = ping; target = []; resp_time = pos 5000; state = k_none; status_line = [] }

judge_takes_example :
    let (rtt, t', m') = judge (up 0 eth0) a_ping two_results in
    (rtt ≡ verdict_of a_ping (head? (queue eth0 two_results)))
    × (queue eth0 m' ≡ tail (queue eth0 two_results))
    × (queue eth1 m' ≡ queue eth1 two_results)
    × (t' ≡ record a_ping { state = if leb_ℤ (pos 0) rtt then k_success else k_failure })
judge_takes_example =
    judge_takes (up 0 eth0) a_ping two_results eth1
      (λ e. absurd (omega (arith, ap (λ (l : Text). get_or l 0 0) e)))

has_target : is_empty (target_of (up 0 eth0) a_ping) ≡ false
unfolding target_of text_eq compare_text lit
has_target = refl

-- A network with one host, at the address 1: what is sent to it comes back in time.
abbrev network : Host
network = record {
  World = ℕ × Bytes;
  time = λ w. (w.0, 0);
  uptime = λ w. w.0;
  getpid = λ w. 7;
  stack = λ n w. zeros n;
  getprotobyname = λ name w. some (pos 1);
  socket = λ family type protocol w. (pos 3, w);
  set_reuse = λ sock w. w;
  bind_any = λ sock w. w;
  close = λ sock w. w;
  select = λ sock w. (if is_empty w.1 then pos 0 else pos 1, w);
  recv_bytes = λ sock w. (
    if is_empty w.1 then none else some (echo_reply (zeros 20) 0 0 0 (drop 1 w.1)),
    (w.0 + 1, []),
  );
  gethostbyname = λ name w. (some 1, w);
  inet_addr = λ name. 1;
  bind_device = λ sock iface w. (true, w);
  sendto = λ sock packet addr port w. if addr == 1 then (w.0, 0 ∷ packet) else w;
  pipe = λ w. (true, w);
  spawn = λ cmd w. w;
  select_pipe = λ w. (true, w);
  read_pipe = λ w. (ended, w);
  wait = λ w. (0, w);
}

echoes : Echo network (pos 0) (pos 0) 1
echoes = record {
  header = λ w. zeros 20;
  code = λ w. 0;
  sum = λ w. 0;
  sum' = λ w. 0;
  header_size = λ w. refl;
  sizes = λ n w. length-replicate n 0;
  wakes = λ packet w. refl;
  replies = λ packet w. refl;
}

interface_named : is_empty (up 0 eth0).interface ≡ false
interface_named = refl

ping_answered_example :
    let (t', e', w') = send_ping network (up 0 eth0) a_ping (start new_engine) (10, []) in
    (recv network 1 (up 0 eth0) t' e' w').0
    ≡ verdict_of a_ping (
        some (
          elapsed
            (network.time w')
            (network.time (network.recv_bytes (pos 0) (network.select (pos 0) w').1).1)))
unfolding new_engine
ping_answered_example =
    ping_answered network (up 0 eth0) a_ping new_engine (10, []) (10, []) (10, []) 1 0 has_target
      interface_named refl refl echoes
