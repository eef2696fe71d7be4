-- ===== src/Lifecycle.antt =====
-- The life of a match over the handlers of matches/matches.service.ts and
-- results/results.service.ts: what the stored rows of a match keep in step with one another.
pub mod Consistent
pub mod Players
pub mod Stats
pub mod MatchWrites
pub mod ResultWrites
pub mod MatchKeeps
pub mod ResultKeeps
pub mod Reach
pub mod Balanced
