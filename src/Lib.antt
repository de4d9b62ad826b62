-- ===== src/Lib.antt =====
-- Verification library of the WAN load balancer, the daemon wan_lb (C++, src/ of the repository).
--
-- The daemon reads a configuration, tests each WAN interface again and again, keeps a verdict on each
-- one, and turns verdicts and rules into commands for iptables, nft and ip. The parts interact through
-- one object, LBData: the loader (src/lbdatafactory.cc) fills it line by line with the help of
-- src/rl_str_proc.cc; each test result goes through LBHealth::put into the ring of an interface
-- (src/lbdata.cc); LBData::state_changed reports the interfaces whose verdict has changed; and
-- LBDecision (src/lbdecision.cc) reads the verdicts, the rules and their weights.
--
-- Common: names passed on from the libraries, Boolean tests, integers over the native numbers, maps as
--   sorted association lists (std::map), and the text and number functions of the C++ library.
-- Data: LBRule, LBTest, LBHealthHistory, LBHealth and LBData as records, with their constructors.
-- Ring: LBHealthHistory. push takes the memory behind the vector as an argument, since operator[] does
--   not check its index. Ring/Window and Ring/Push say what the count is; Ring/Replay is about rings
--   that were filled from the start; Ring/Overread is about counts that leave the vector.
-- Health: LBHealth::put. Health/Verdict relates it to the results.
-- PathTest: the steps of LBHealth through its tests (src/lbdata.cc), and LBPathTest::start
--   (src/lbpathtest.cc). Its rounds run on fuel, two more than the greatest number of tests of an
--   interface. The order in which std::set visits the interfaces is an argument, and the virtual
--   functions of the tests are a record of operations.
-- StrProc: StrProc's constructor and its get functions. collect runs on fuel, one more than the length
--   of the line, and each round takes at least one byte. Runs and Tokens say what the tokens are;
--   RoundTrip is about a line made of words.
-- State: is_active, state_changed and reset_state_changed of LBData; State/Lease is
--   update_dhcp_nexthop, where none stands for the uncaught exception of substr.
-- Factory: LBDataFactory: Healths and Rules hold the handlers, Process is process and Load is load.
--   An iterator is unset, past the end, or at a key; none stands for undefined behaviour. Sound, Kept
--   and Loaded are about what load leaves.
-- Float and Weights: get_new_weights over a type float with laws of IEEE 754 single precision.
--   Weights/Sharing and Weights/Proportion are about rules that balance, Weights/Failover about the
--   others.
-- Decision: Shell is execute, with every command kept in a log; Filter is get_application_cmd and
--   get_limit_cmd; Paths is update_paths with insert_default and fetch_iface_addr; Setup is init; Rules
--   is run; Teardown is shutdown. The operating system is a parameter; Paths/Table adds to it what
--   iptables does to the rules of the source NAT.
-- Output: the status file and the text that LBOutput::write prints into it (src/lboutput.cc); ctime is
--   a parameter.
-- Probe: LBTest (src/lbtest.cc) over a record of system calls, Host. Checksum holds the two versions
--   of in_checksum and udp_checksum, Icmp, Ttl and User the three kinds of tests
--   (src/lbtest_icmp.cc, src/lbtest_ttl.cc, src/lbtest_user.cc), and Engines the virtual functions,
--   which fill the record that PathTest takes. Icmp/Request, Ttl/Header, Ttl/Datagram and
--   Ttl/Exceeded are about packets and the answers to them, Numbers about the numbers of packets,
--   Elapsed, Answers and Queues about the parts of LBTest::recv, and Ping about all of them
--   together. Packets are lists of bytes (Common/Memory).
-- LoadBalance: the steps of the main loop (src/loadbalance.cc). The tests run on fuel for two rounds
--   more than any interface has tests, which is enough.
-- Main: the options, the start, the signals and the event loop (src/main.cc). Step is a statement of
--   the loop or a signal; Reach is about all states that steps lead to, Laps about whole
--   cycles, Cleanup and Life about the daemon from its start to its end, and Malformed about a
--   configuration that load rejects.
-- Examples: tests, and an instance of each theorem.
--
-- Machine integers: strtoul and its conversion to int keep their wrap-around, as do the count of
-- failures, the checksums and the numbers of packets. The index of the ring counts the pushes of one
-- run of the daemon and stays in the range of int, as do the sums of weights and the differences of
-- clock readings. The machine is little-endian, with time_t of 64 bits. Clocks, files, the system and
-- float are parameters. The loops of LBTest::recv and LBTestUser::system_out run on fuel that is an
-- argument: as many rounds as end before the timeout, or before the script ends its output.
--
-- Not modelled: debug and log output; LBData::dump, which prints; of src/main.cc the fork into the
-- background, the file of the process id and the group id, which nothing else reads; what the child of
-- a script does before the script runs; scripts and packaging. The sizes of the C buffers that hold
-- printed numbers and interface names are not modelled either.
pub mod Common
pub mod Data
pub mod Ring
pub mod StrProc
pub mod Health
pub mod State
pub mod Float
pub mod Weights
pub mod Decision
pub mod Factory
pub mod PathTest
pub mod Probe
pub mod Output
pub mod LoadBalance
pub mod Main
pub mod Examples
