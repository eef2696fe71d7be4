-- ===== src/Model.antt =====
-- The stored rows, the world that the services share, and the two monads in which the services
-- are written: `Outcome` for reads and checks, `Action` for whole handlers.
pub mod Enums
pub mod Kinds
pub mod Rows
pub mod World
pub mod Outcome
pub mod Action
