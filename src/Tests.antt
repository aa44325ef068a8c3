-- ===== src/Tests.antt =====
-- The kernel at concrete inputs: whole runs, and the properties where their hypotheses hold.
pub mod Samples
mod Boards
mod Creation
mod Runs
mod Programs
mod Queues
mod Switching
mod Dumps
mod Pages
mod Printing
mod Waiters
mod Users
