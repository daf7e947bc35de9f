-- ===== src/Tests.antt =====
-- Runs of the models at concrete inputs, and the theorems at inputs where their hypotheses hold.
mod Layouts
mod Blocks
mod Counters
mod Services
mod Groups
mod Growing
mod Records
mod Slots
mod Codecs
mod Journaled
mod Replays
mod Directories
mod Chains
mod Faults
mod Volumes
