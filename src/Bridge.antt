-- ===== src/Bridge.antt =====
-- internal/agentbridge: a relay that passes messages between registered agents.
pub mod Models
pub mod Store
pub mod Auth
pub mod Server
pub mod Client
