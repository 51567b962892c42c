-- ===== src/Examples.antt =====
-- Concrete inputs at which the theorems apply.
mod Data
mod Labels
mod Offerings
mod Servers
mod Classes
mod Claims
mod Traces
mod Start
mod Owned
mod Backoff
mod Orphans
mod Fresh
mod Hashes
mod Pools
