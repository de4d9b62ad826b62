-- ===== src/Probe/User.antt =====
-- src/lbtest_user.hh and src/lbtest_user.cc: `LBTestUser`, a script that decides.
use vyatta_wanloadbalance.Common.{
  ℕ, zero, suc, ◌/◌, ◌%◌, ◌==◌, true, false, [], ◌∷◌, ◌++◌, Text, ℤ, pos, minus_one, lit, is_empty,
  eq_ℤ, Bytes, overlay, replicate, if◌then◌else◌,
}
use vyatta_wanloadbalance.Data.{Health, Test, k_success, k_failure}
use vyatta_wanloadbalance.Probe.Icmp.{print_unsigned}
use vyatta_wanloadbalance.Probe.{Host, got, again, ended}

-- `buf` as `memset` leaves it.
unfoldable pub cleared : Bytes
cleared = replicate 8192 0

-- `string(buf)`: the bytes up to the first zero.
unfoldable pub c_string : Bytes → Text
c_string [] = []
c_string (b ∷ buffer) = let rest = c_string buffer in if b == 0 then [] else b ∷ rest

unfoldable pub set_script_state : ℤ → Test → Test
set_script_state status t = record t {
  state = if eq_ℤ status (pos 0) then k_success else k_failure;
}

-- The command line of a script for an interface.
unfoldable pub script_command : Text → Text → Text
script_command script iface =
    lit "/bin/bash -p -c '"
    ++ (lit "export WLB_SCRIPT_IFACE=" ++ (iface ++ (lit ";umask 000; " ++ (script ++ lit ";'"))))

module _ (host : Host) where
  open host use {World, pipe, spawn, select_pipe, read_pipe, wait}

  -- The loop that reads what the script prints, on fuel. The buffer is not cleared between reads.
  unfoldable pub read_output : ℕ → Bytes → Text → World → Text × World
  unfolding c_string
  read_output zero buf out w = (out, w)
  read_output (suc fuel) buf out w =
      let (ready, w1) = select_pipe w in
      let (answer, w2) = read_pipe w1 in
      elim ready [
        | false ↦ (out, w1)
        | true ↦ elim answer [
          | got bytes ↦
              let buf' = overlay bytes buf in read_output fuel buf' (out ++ c_string buf') w2
          | again ↦ read_output fuel buf out w2
          | ended ↦ (out, w2)
        ]
      ]

  -- `LBTestUser::system_out`: the exit status of the command, and what it prints.
  unfoldable pub system_out : ℕ → Text → World → ℤ × Text × World
  unfolding read_output
  system_out fuel cmd w =
      let (opened, w1) = pipe w in
      let (out, w2) = read_output fuel cleared [] (spawn cmd w1) in
      let (status, w3) = wait w2 in
      if is_empty cmd
      then (minus_one, [], w)
      else if opened
      then (pos (status / 256 % 256), out, w3)
      else (minus_one, [], w1)

  -- `LBTestUser::send`.
  unfoldable pub send_script : ℕ → Text → Health → Test → World → Test × World
  unfolding system_out script_command set_script_state
  send_script fuel script h t w =
      let (status, out, w') = system_out fuel (script_command script h.interface) w in
      (
        set_script_state status
            (record t { status_line = lit "user" ++ 9 ∷ (lit "Script: " ++ script) }),
        w',
      )

-- `LBTestUser::recv`.
unfoldable pub recv_script : Test → ℤ
recv_script t = elim t.state [ k_success ↦ pos 1 | _ ↦ minus_one ]

-- `LBTestUser::dump`.
unfoldable pub dump_script : Text → Test → Text
dump_script script t =
    lit "script: " ++ (script ++ (lit ", resp_time: " ++ print_unsigned t.resp_time))
