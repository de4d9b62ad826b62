-- ===== src/Decision/Shell.antt =====
-- src/lbdecision.cc: `LBDecision::execute`, and the commands that it is given.
pub mod Log
use vyatta_wanloadbalance.Common.{
  ℕ, ◌==◌, Bool, true, false, List, [], ◌∷◌, ◌++◌, Option, none, some, Text, lit, if◌then◌else◌,
}

-- The commands of the daemon. A chain or rule of the mangle table is named by its own constructor;
-- the others are kept as text.
pub data Command : Type 0 where
  new_chain : Text → Command
  flush_chain : Text → Command
  drop_chain : Text → Command
  append_rule : Text → Text → Command
  insert_rule : Text → Text → Command
  delete_rule : Text → Text → Command
  add_snat : Text → Text → Command
  delete_snat : Text → Text → Command
  shell : Text → Command

-- ` -m connmark --mark M -j SNAT --to-source A`, behind the name of the chain.
unfoldable pub snat_rule : Text → Text → Text
snat_rule mark addr =
    lit "WANLOADBALANCE -m connmark --mark " ++ (mark ++ (lit " -j SNAT --to-source " ++ addr))

-- The line that `popen` gets.
unfoldable pub render : Command → Text
unfolding snat_rule
render (new_chain chain) = lit "iptables-nft -t mangle -N " ++ chain
render (flush_chain chain) = lit "iptables-nft -t mangle -F " ++ chain
render (drop_chain chain) = lit "iptables-nft -t mangle -X " ++ chain
render (append_rule chain rule) = lit "iptables-nft -t mangle -A " ++ (chain ++ (lit " " ++ rule))
render (insert_rule chain rule) = lit "iptables-nft -t mangle -I " ++ (chain ++ (lit " " ++ rule))
render (delete_rule chain rule) = lit "iptables-nft -t mangle -D " ++ (chain ++ (lit " " ++ rule))
render (add_snat mark addr) = lit "iptables-nft -t nat -A " ++ snat_rule mark addr
render (delete_snat mark addr) = lit "iptables-nft -t nat -D " ++ snat_rule mark addr
render (shell command) = command

-- The operating system, as far as the decisions depend on it. A status is the bit pattern of the
-- `int` that `pclose` returns; the text is what the command prints. Sleeping changes nothing.
pub record System : Type 1 where
  pub World : Type 0
  -- `popen(cmd, read ? "r" : "w")` and what follows up to `pclose`; `none` if there is no stream.
  pub popen : Text → Bool → World → Option (ℕ × Text) × World
  -- `socket(AF_INET, SOCK_STREAM, 0)`: whether it gives a descriptor.
  pub socket : World → Bool × World
  -- `ioctl(fd, SIOCGIFADDR, ...)` for an interface, and its address in dots.
  pub get_addr : Text → World → Option Text × World
  -- `setenv` for WLB_INTERFACE_NAME and WLB_INTERFACE_STATE, and `unsetenv` of both.
  pub set_hook_env : Text → Text → World → World
  pub unset_hook_env : World → World

-- Each line that `getline` reads is followed by a space.
pub spaced_lines : Text → Text
spaced_lines [] = []
spaced_lines (c ∷ []) = if c == 10 then c ∷ 32 ∷ [] else c ∷ 32 ∷ []
spaced_lines (c ∷ d ∷ cs) =
    if c == 10 then c ∷ 32 ∷ spaced_lines (d ∷ cs) else c ∷ spaced_lines (d ∷ cs)

module _ (sys : System) where
  open sys use {World, popen}

  -- The system, and the commands that have been given to it, the first one first.
  pub record Shell : Type 0 where
    pub world : World
    pub log : List Command

  -- `LBDecision::execute`: the status, what it adds to `stdout`, and the state after it.
  unfoldable pub execute : Command → Bool → Shell → ℕ × Text × Shell
  unfolding spaced_lines
  execute command read s =
      let (answer, world) = popen (render command) read s.world in
      let s' : Shell = record { world = world; log = s.log ++ command ∷ [] } in
      elim answer [
        | none ↦ (0, [], s')
        | some (status, output) ↦ (status, if read then spaced_lines output else [], s')
      ]

  -- Commands whose status and output are dropped.
  unfoldable pub execute_all : List Command → Shell → Shell
  unfolding execute
  execute_all [] s = s
  execute_all (command ∷ commands) s = execute_all commands (execute command false s).2
