-- ===== src/Examples.antt =====
-- Tests of the definitions and concrete instances of the theorems, on the code of src/.
mod Fixtures
mod Verdicts
mod Balance
mod Lines
mod Cycles
mod Configs
mod Rounds
mod Status
mod Loop
mod Probes
mod Daemon
mod Life
mod Malformed
mod Router
