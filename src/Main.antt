-- ===== src/Main.antt =====
-- src/main.cc: the options, the start, the signals and the event loop of the daemon.
pub mod Reach
pub mod Laps
pub mod Cleanup
pub mod Life
pub mod Malformed
use vyatta_wanloadbalance.Common.{
  ℕ, ◌==◌, ◌≡◌, ◌≢◌, Bool, true, false, List, [], ◌∷◌, Option, none, some, Text, ℤ, lit, is_empty,
  negsuc, if◌then◌else◌,
}
use vyatta_wanloadbalance.Float.{Float}
use vyatta_wanloadbalance.PathTest.{Prober, construct_tests}
use vyatta_wanloadbalance.State.Lease.{Files}
use vyatta_wanloadbalance.Decision.Shell.{System, Shell}
use vyatta_wanloadbalance.Output.{StatusFile}
use vyatta_wanloadbalance.LoadBalance.{
  LoadBalance, new_load_balance, set_conf, init, update_paths, health_test, apply_rules, output,
  start_cycle, shutdown,
}

-- The variables of `main` that the options set.
pub record Args : Type 0 where
  pub debug : Bool
  pub config_debug_mode : Bool
  pub daemon : Bool
  pub pid_path : Text
  pub output_path : Text
  pub c_file : Text

unfoldable pub defaults : Args
unfolding lit
defaults = record {
  debug = false;
  config_debug_mode = false;
  daemon = false;
  pid_path = lit "/var/run";
  output_path = lit "/var/run/load-balance";
  c_file = [];
}

-- One option with its argument; `none` is the usage text and the end of the program.
unfoldable pub parse_option : ℕ → Text → Args → Option Args
parse_option ch optarg a =
    if ch == b'f'
    then some (record a { c_file = optarg })
    else if ch == b'h'
    then none
    else if ch == b't'
    then some (record a { config_debug_mode = true })
    else if ch == b'i'
    then some (record a { pid_path = optarg })
    else if ch == b'o'
    then some (record a { output_path = optarg })
    else if ch == b'd'
    then some (record a { daemon = true })
    else if ch == b'v'
    then some (record a { debug = true })
    else none

-- The options as `getopt` gives them.
unfoldable pub parse_options : List (ℕ × Text) → Args → Option Args
unfolding parse_option
parse_options [] a = some a
parse_options ((ch, optarg) ∷ rest) a = elim (parse_option ch optarg a) [
  | none ↦ none
  | some a' ↦ parse_options rest a'
]

-- The places of the event loop at which a signal can come in.
pub data Stage : Type 0 where
  checking clearing testing applying writing sleeping starting ended : Stage

-- What a round of the loop reads of the world: the order of the interfaces in memory, the clock, the
-- time and its text, whether the status file can be opened, and the lease files.
pub record Round : Type 0 where
  pub order : List Text
  pub clock : Text → ℕ
  pub cur : ℕ
  pub ctime : ℕ → Text
  pub opened : Bool
  pub files : Files

module _ (float : Float) (sys : System) (beyond : ℕ → ℤ) (prober : Prober) where
  -- The process: `g_lb`, `g_check_path`, and what it has done to the world.
  pub record Process : Type 0 where
    pub stage : Stage
    pub lb : LoadBalance
    pub check_path : Bool
    pub shell : Shell sys
    pub world : prober.World
    pub status : StatusFile

  -- How the start of the program ends: with an exit status, or in the loop.
  pub data Started : Type 0 where
    exited : ℕ → Started
    running : Process → Started

  -- `main` up to the loop, in the process that goes on as the daemon; `none` is undefined behaviour
  -- or an uncaught exception. `group` is whether the group vyattacfg exists.
  unfoldable pub startup :
      List (ℕ × Text) → (Text → Option Text) → Bool → Shell sys → prober.World → Option Started
  startup options files group s w = elim (parse_options options defaults) [
    | none ↦ some (exited 0)
    | some a ↦ elim (is_empty a.c_file) [
      | true ↦ some (exited 0)
      | false ↦ elim (set_conf (files a.c_file) new_load_balance) [
        | none ↦ none
        | some (success, lb) ↦ elim (construct_tests prober lb.lbdata w) [
          | none ↦ none
          | some w' ↦
              let (lb', s') = init sys lb s in
              let p : Process = record {
                stage = checking;
                lb = lb';
                check_path = false;
                shell = s';
                world = w';
                status = none;
              } in
              some (
                if success
                then if a.config_debug_mode then exited 0 else if group then running p else exited 1
                else exited 0)
        ]
      ]
    ]
  ]

  -- `sig_end` and `sig_user1`, and the end of `main`: the `LoadBalance` is deleted.
  unfoldable pub sig_end : Process → Process
  sig_end p =
      let (s, file) = shutdown sys p.lb p.shell p.status in
      record p { stage = ended; shell = s; status = file }

  -- `sig_user2`.
  unfoldable pub sig_user2 : Process → Process
  sig_user2 p = record p { check_path = true }

  -- `if (g_check_path == true)` and the update, then the reset of the flag.
  unfoldable pub check : Process → Process
  check p =
      let (lb, s) = update_paths sys p.lb p.shell in
      if p.check_path
      then record p { stage = clearing; lb = lb; shell = s }
      else record p { stage = testing }

  -- `while (g_lb->start_cycle())`.
  unfoldable pub next_cycle : Round → Process → Option Process
  unfolding sig_end
  next_cycle r p = elim (start_cycle r.files p.lb) [
    | none ↦ none
    | some (true, lb) ↦ some (record p { stage = checking; lb = lb })
    | some (false, lb) ↦ some (sig_end (record p { lb = lb }))
  ]

  unfoldable pub apply : Round → Process → Process
  apply r p =
      let (lb, s) = apply_rules sys float r.clock p.lb p.shell in
      record p { stage = writing; lb = lb; shell = s }

  unfoldable pub test : Round → Process → Option Process
  test r p = elim (health_test beyond prober r.order p.lb p.world) [
    | none ↦ none
    | some (lb, w) ↦ some (record p { stage = applying; lb = lb; world = w })
  ]

  -- The statement of the loop at a stage; `none` at the start of a cycle is an uncaught exception.
  unfoldable pub statement_at : Stage → Round → Process → Option Process
  statement_at checking r p = some (check p)
  statement_at clearing r p = some (record p { stage = testing; check_path = false })
  statement_at testing r p = test r p
  statement_at applying r p = some (apply r p)
  statement_at writing r p =
      some (record p { stage = sleeping; status = output r.ctime r.cur r.opened p.lb p.status })
  statement_at sleeping r p = some (record p { stage = starting })
  statement_at starting r p = next_cycle r p
  statement_at ended r p = none

  unfoldable pub advance : Round → Process → Option Process
  unfolding statement_at
  advance r p = statement_at p.stage r p

  -- The process takes a statement, or gets a signal.
  pub data Step (p : Process) : Process → Type 0 where
    statement : {q : Process} (r : Round) → advance r p ≡ some q → Step p q
    end_signal : p.stage ≢ ended → Step p (sig_end p)
    check_signal : p.stage ≢ ended → Step p (sig_user2 p)

  pub data Reachable (p : Process) : Process → Type 0 where
    here : Reachable p p
    later : {q r : Process} → Reachable p q → Step q r → Reachable p r
