-- ===== src/Tests.antt =====
-- Runs of the theorems at concrete inputs, with small functions for the code outside of the program.
mod Docker
mod Network
mod Stores
mod Commands
mod Concurrent
mod Creation
mod Servers
mod Installing
mod Locks
mod Program
mod Runner
mod Doubles
