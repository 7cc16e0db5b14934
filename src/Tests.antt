-- ===== src/Tests.antt =====
-- The theorems at concrete inputs, and runs of the model that follow the tests of the repository.
mod Toy
mod Accounts
mod Sessions
mod Surface
mod Views
mod Tables
mod Store
mod Loop
mod Routes
mod Interleaved
mod Served
mod Start
mod Saves
