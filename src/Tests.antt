-- ===== src/Tests.antt =====
-- Runs of the model at concrete inputs, and the theorems at inputs that meet their hypotheses.
mod Scheduling
mod Buffers
mod Drivers
mod Printing
mod Strings
mod Clock
mod Times
mod Cards
mod Blocks
mod Patches
mod Boards
mod Tasks
mod Starting
