-- ===== src/Bootstrap.antt =====
-- internal/agentbridge/bootstrap.go: signed and encrypted bundles that bring an agent its token.
pub mod Bytes
pub mod Payload
pub mod Crypto
pub mod Bundle
pub mod Validate
pub mod Apply
pub mod Encrypt
