-- ===== src/Matchmaking.antt =====
-- generateCandidates of matchmaking/matchmaking-algorithm.service.ts: the combinations of players for
-- a team, the search for a team's roles, the metrics of a split, and the choice of the candidates;
-- and autoBalance and reroll of matchmaking/matchmaking.service.ts.
pub mod Roles
pub mod Combinations
pub mod Metrics
pub mod Splits
pub mod Candidates
pub mod History
pub mod Service
pub mod Handlers
pub mod Kept
pub mod Rerolled
pub mod Seating
pub mod Locks
pub mod Chosen
pub mod Optimum
