-- ===== src/Examples.antt =====
-- The theorems at concrete states of the machine of Samples.antt.
mod Running
mod Calls
mod Forking
mod Forks
mod Families
mod Ticking
mod Rings
mod Booting
mod Users
mod Memories
mod Filings
mod Balancing
mod Programs
mod Migrating
mod Sleeping
