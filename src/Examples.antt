-- ===== src/Examples.antt =====
-- A match played through, and the theorems of the library at it.
mod Data
mod Played
mod Facts
mod Checks
mod Community
mod Posts
mod Sessions
mod Accounts
mod Candidates
