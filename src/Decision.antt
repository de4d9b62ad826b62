-- ===== src/Decision.antt =====
-- src/lbdecision.cc: `LBDecision`, which turns the state of the interfaces into commands. A child for
-- each group of its methods, and for what is proved of them.
pub mod Shell
pub mod Filter
pub mod Paths
pub mod Setup
pub mod Rules
pub mod Teardown
pub mod Sound
pub mod Created
