-- ===== src/Probe/Engines.antt =====
-- src/lbtest*.hh: the virtual functions of the three kinds of tests, which `LBPathTest` calls.
use vyatta_wanloadbalance.Common.{ℕ, Text, ℤ}
use vyatta_wanloadbalance.Data.{Health, Test, ping, udp, user}
use vyatta_wanloadbalance.PathTest.{Prober}
use vyatta_wanloadbalance.Probe.{Engine, Host, init, start, recv}
use vyatta_wanloadbalance.Probe.Icmp.{send_ping, dump_ping}
use vyatta_wanloadbalance.Probe.Ttl.{send_udp, dump_ttl}
use vyatta_wanloadbalance.Probe.User.{send_script, recv_script, dump_script}

-- `start`: a script has none.
unfoldable pub start_test : Test → Engine → Engine
start_test t e = elim t.kind [ ping ↦ start e | udp ttl port ↦ start e | user script ↦ e ]

-- `dump`.
unfoldable pub dump : Test → Text
dump t = elim t.kind [
  | ping ↦ dump_ping t
  | udp ttl port ↦ dump_ttl ttl port t
  | user script ↦ dump_script script t
]

module _ (host : Host) (fuel : ℕ) where
  open host use {World, time}

  unfoldable pub send_test_kind : Health → Test → Engine × World → Test × (Engine × World)
  send_test_kind h t (e, w) = elim t.kind [
    | ping ↦ let (t', e', w') = send_ping host h t e w in (t', (e', w'))
    | udp ttl port ↦ let (t', e', w') = send_udp host ttl h t e w in (t', (e', w'))
    | user script ↦ let (t', w') = send_script host fuel script h t w in (t', (e, w'))
  ]

  unfoldable pub recv_test_kind : Health → Test → Engine × World → ℤ × Test × (Engine × World)
  recv_test_kind h t (e, w) =
      let (rtt, t', e', w') = recv host fuel h t e w in
      let received : ℤ × Test × (Engine × World) = (rtt, t', (e', w')) in
      elim t.kind [
        | ping ↦ received
        | udp ttl port ↦ received
        | user script ↦ (recv_script t, t, (e, w))
      ]

  -- The tests as `LBPathTest` sees them.
  abbrev pub engines : Prober
  engines = record {
    World = Engine × World;
    init = λ w. init host w.0 w.1;
    start = λ t w. (t, (start_test t w.0, w.1));
    send = send_test_kind;
    recv = recv_test_kind;
    now = λ w. (time w.1).0;
  }
