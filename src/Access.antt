-- ===== src/Access.antt =====
-- backend/app/control_api.py and daemon_auth.py, with the rows of db_models.py that they use: how a
-- machine is paired, how its daemon is let in, and how an agent is revoked.
pub mod Defs
pub mod Pairing
pub mod Codes
pub mod Tokens
mod Examples
