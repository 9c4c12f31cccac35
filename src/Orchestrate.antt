-- ===== src/Orchestrate.antt =====
-- privibe/core/orchestrate: a manager and its workers do a job in rounds, and a command says whether
-- it is done.
mod Examples
pub mod Verifier
pub mod Bundle
pub mod Parse
pub mod Prompt
pub mod Run
pub mod Rounds
pub mod Start
