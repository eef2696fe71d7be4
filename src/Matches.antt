-- ===== src/Matches.antt =====
-- Matches: the handlers of matches/matches.service.ts that read or change a match.
pub mod Access
pub mod Roster
pub mod Teams
pub mod Guards
pub mod Handlers
pub mod Effects
