-- ===== src/Probe.antt =====
-- src/lbtest.hh and src/lbtest.cc: `LBTest`, the state that all tests share, and how answers are
-- received.
pub mod Checksum
pub mod Icmp
pub mod Ttl
pub mod User
pub mod Engines
pub mod Numbers
pub mod Elapsed
pub mod Answers
pub mod Queues
pub mod Ping
use vyatta_wanloadbalance.Common.{
  ℕ, zero, suc, ◌+◌, ◌-◌, ◌*◌, ◌/◌, ◌==◌, Bool, true, false, not, ◌&&◌, [], ◌∷◌, Option, none, some,
  Text, Map, ℤ, pos, negsuc, minus_one, ◌+ℤ◌, ◌-ℤ◌, ltb, leb_ℤ, ltb_ℤ, eq_ℤ, find, alter, text_eq,
  lit, Bytes, overlay, get_or, length, int_key, if◌then◌else◌,
}
use vyatta_wanloadbalance.Data.{Health, Test, k_success, k_failure}

-- `PktData`.
pub record PktData : Type 0 where
  pub iface : Text
  pub rtt : ℤ

-- The static members of `LBTest`. `_packet_id` is an `int` that is never negative.
pub record Engine : Type 0 where
  pub send_icmp_sock : ℤ
  pub send_raw_sock : ℤ
  pub recv_icmp_sock : ℤ
  pub initialized : Bool
  pub received : Bool
  pub packet_id : ℕ
  pub results : Map ℤ PktData

-- Their initial values.
unfoldable pub new_engine : Engine
new_engine = record {
  send_icmp_sock = pos 0;
  send_raw_sock = pos 0;
  recv_icmp_sock = pos 0;
  initialized = false;
  received = false;
  packet_id = 0;
  results = [];
}

-- What a read from the pipe of a script gives: bytes, nothing yet (EAGAIN), or its end or an error.
pub data PipeRead : Type 0 where
  got : Bytes → PipeRead
  again : PipeRead
  ended : PipeRead

-- The system calls of the tests. Clocks are read; what takes time or has an effect gives a new world.
-- An address is the number that the machine reads from its four bytes.
pub record Host : Type 1 where
  pub World : Type 0
  -- `gettimeofday`: seconds and microseconds.
  pub time : World → ℕ × ℕ
  -- The seconds of `sysinfo`.
  pub uptime : World → ℕ
  pub getpid : World → ℕ
  -- What a buffer of a size holds on the stack before it is written.
  pub stack : ℕ → World → Bytes
  -- The number of a protocol; `none` is NULL.
  pub getprotobyname : Text → World → Option ℤ
  -- `socket(family, type, protocol)`.
  pub socket : ℤ → ℤ → ℤ → World → ℤ × World
  -- `setsockopt` with SO_REUSEADDR, and `bind` to any address.
  pub set_reuse : ℤ → World → World
  pub bind_any : ℤ → World → World
  pub close : ℤ → World → World
  -- `select` on the socket for three seconds.
  pub select : ℤ → World → ℤ × World
  -- `recv(sock, buffer, 56, 0)`: the bytes that it writes; `none` is -1.
  pub recv_bytes : ℤ → World → Option Bytes × World
  pub gethostbyname : Text → World → Option ℕ × World
  pub inet_addr : Text → ℕ
  -- `setsockopt` with SO_BINDTODEVICE: whether it succeeds.
  pub bind_device : ℤ → Text → World → Bool × World
  -- `sendto(sock, packet, ..., address and port)`. A failure is only logged.
  pub sendto : ℤ → Bytes → ℕ → ℕ → World → World
  -- `pipe`: whether it succeeds; `fork`, and what the child does up to `execl` of the command.
  pub pipe : World → Bool × World
  pub spawn : Text → World → World
  -- `select` on the pipe: whether it is other than -1; and a `read` of at most 8191 bytes.
  pub select_pipe : World → Bool × World
  pub read_pipe : World → PipeRead × World
  -- `wait`: the status of the child.
  pub wait : World → ℕ × World

-- The time in milliseconds between two clock readings as `LBTest::recv` computes it: the difference
-- of the microseconds is made positive by `abs` after a second has been borrowed.
unfoldable pub times_1000 : ℤ → ℤ
times_1000 (pos n) = pos (1000 * n)
times_1000 (negsuc n) = negsuc (1000 * suc n - 1)

unfoldable pub distance : ℕ → ℕ → ℕ
distance a b = if ltb a b then b - a else a - b

unfoldable pub elapsed : ℕ × ℕ → ℕ × ℕ → ℤ
unfolding times_1000 distance
elapsed (sec, usec) (sec', usec') =
    let secs = if ltb usec' usec then pos sec' -ℤ pos sec -ℤ pos 1 else pos sec' -ℤ pos sec in
    pos (distance usec usec' / 1000) +ℤ times_1000 secs

-- The id in the answer that stands in the buffer: of a router that dropped a packet of
-- `LBTestTTL`, in the ports of that packet; of a host that answers `LBTestICMP`, in the data.
unfoldable pub decode : Bytes → ℤ
decode buffer =
    if get_or buffer 20 0 == 11
    then pos (get_or buffer 49 0 + 256 * get_or buffer 50 0)
    else if get_or buffer 20 0 == 0
    then pos (get_or buffer 36 0 + 256 * get_or buffer 37 0)
    else minus_one

-- `LBTest::start`.
unfoldable pub start : Engine → Engine
start e = record e { received = false; results = [] }

-- The first result of an interface in the order of the ids, which is erased.
unfoldable pub take_result : Text → Map ℤ PktData → Option ℤ × Map ℤ PktData
take_result iface [] = (none, [])
take_result iface ((id, p) ∷ rest) =
    let later = take_result iface rest in
    if text_eq p.iface iface then (some p.rtt, rest) else (later.0, (id, p) ∷ later.1)

-- The verdict on a test whose result is found or not.
unfoldable pub settle : Test → Option ℤ → ℤ × Test
settle t none = (minus_one, record t { state = k_failure })
settle t (some rtt) =
    if leb_ℤ (pos 0) rtt && ltb_ℤ rtt t.resp_time
    then (rtt, record t { state = k_success })
    else (minus_one, record t { state = k_failure })

-- The end of `LBTest::recv`, which looks the interface up in the results.
unfoldable pub judge : Health → Test → Map ℤ PktData → ℤ × Test × Map ℤ PktData
unfolding take_result settle
judge h t results =
    let (found, rest) = take_result h.interface results in
    let (rtt, t') = settle t found in (rtt, t', rest)

module _ (host : Host) where
  open host use {
    World, time, uptime, stack, getprotobyname, socket, set_reuse, bind_any, close, select,
    recv_bytes,
  }

  -- `LBTest::init`; `none` is the use of a protocol that the system does not know.
  unfoldable pub init : Engine → World → Option (Engine × World)
  init e w = if e.initialized then some (e, w) else elim (getprotobyname (lit "icmp") w) [
    | none ↦ none
    | some proto ↦
        let e1 = record e { initialized = true } in
        let (send_icmp, w1) = socket (pos 2) (pos 3) proto w in
        let (send_raw, w2) = socket (pos 2) (pos 3) (pos 255) (set_reuse send_icmp w1) in
        let (recv_icmp, w3) = socket (pos 2) (pos 3) proto (set_reuse send_raw w2) in
        if ltb_ℤ send_icmp (pos 0)
        then some (record e1 { send_icmp_sock = pos 0 }, w1)
        else if ltb_ℤ send_raw (pos 0)
        then some (record e1 { send_icmp_sock = send_icmp; send_raw_sock = pos 0 }, w2)
        else let e2 = record e1 { send_icmp_sock = send_icmp; send_raw_sock = send_raw } in
          if ltb_ℤ recv_icmp (pos 0)
          then some (record e2 { recv_icmp_sock = pos 0 }, w3)
          else some (record e2 { recv_icmp_sock = recv_icmp }, bind_any recv_icmp w3)
  ]

  close_sock : ℤ → World → World
  close_sock sock w = if eq_ℤ sock (pos 0) then w else close sock w

  -- `LBTest::~LBTest`, which closes what the other tests still use.
  unfoldable pub destroy : Engine → World → Engine × World
  unfolding close_sock
  destroy e w = (
    record e { recv_icmp_sock = pos 0; send_raw_sock = pos 0; send_icmp_sock = pos 0 },
    close_sock e.send_icmp_sock (close_sock e.send_raw_sock (close_sock e.recv_icmp_sock w)),
  )

  -- `LBTest::receive`: the id of an answer, or -1. What `recv` does not write of the buffer is what
  -- the stack held.
  unfoldable pub receive : ℤ → World → ℤ × World
  unfolding decode
  receive sock w =
      let (ready, w1) = select sock w in
      let (answer, w2) = recv_bytes sock w1 in
      if eq_ℤ ready (pos 0) then (minus_one, w1) else elim answer [
        | none ↦ (minus_one, w2)
        | some bytes ↦ (decode (overlay bytes (stack 56 w)), w2)
      ]

  -- The variables of the loop of `LBTest::recv`.
  pub record Receiving : Type 0 where
    pub world : World
    pub cur_time : ℕ
    pub pending : ℕ
    pub results : Map ℤ PktData

  -- One round of it. `sent` is the time at which the loop began.
  unfoldable pub receive_step : ℤ → ℕ × ℕ → Receiving → Receiving
  unfolding elapsed
  receive_step sock sent r =
      let (id, w) = receive sock r.world in
      record {
        world = w;
        cur_time = uptime w;
        pending = elim (find id r.results) [ none ↦ r.pending | some p ↦ r.pending - 1 ];
        results = alter id (λ p. record p { rtt = elapsed sent (time w) }) r.results;
      }

  unfoldable pub goes_on : ℕ → Receiving → Bool
  goes_on timeout r = ltb r.cur_time timeout && not (r.pending == 0)

  unfoldable pub receive_loop : ℕ → ℤ → ℕ × ℕ → ℕ → Receiving → Receiving
  unfolding goes_on
  receive_loop zero sock sent timeout r = r
  receive_loop (suc fuel) sock sent timeout r = elim (goes_on timeout r) [
    | true ↦ receive_loop fuel sock sent timeout (receive_step sock sent r)
    | false ↦ r
  ]

  -- What the loop begins with: every result is pending.
  unfoldable pub begin_receiving : Engine → World → Receiving
  begin_receiving e w = record {
    world = w;
    cur_time = uptime w;
    pending = length e.results;
    results = e.results;
  }

  -- The part of `LBTest::recv` that the first call of a round runs, for all tests; the overall
  -- timeout is five seconds.
  unfoldable pub receive_all : ℕ → Engine → World → Engine × World
  unfolding receive_loop begin_receiving
  receive_all fuel e w =
      let r = receive_loop fuel e.recv_icmp_sock (time w) (uptime w + 5) (begin_receiving e w) in
      if e.received then (e, w) else (record e { received = true; results = r.results }, r.world)

  -- `LBTest::recv`.
  unfoldable pub recv : ℕ → Health → Test → Engine → World → ℤ × Test × Engine × World
  unfolding receive_all judge
  recv fuel h t e w =
      let (e1, w1) = receive_all fuel e w in
      let (rtt, t', results) = judge h t e1.results in
      (rtt, t', record e1 { results = results }, w1)
