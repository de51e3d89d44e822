-- ===== src/Session.antt =====
-- apps/user-service/src/modules/user: the refresh tokens of a user's sessions, and the rotation that
-- a refresh makes of them.
mod Tests
pub mod Tokens
pub mod Rotation
pub mod Calls
mod Change
pub mod OneLive
pub mod Spent
pub mod Ended
pub mod UsedOnce
