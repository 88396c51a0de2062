-- ===== src/Authz.antt =====
-- internal/authz/actions.go: the action vocabulary and the closed sets of actions that each
-- persistence operation accepts.
pub mod Security
pub mod Checks
pub mod Laws
mod Tests
