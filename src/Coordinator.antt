-- ===== src/Coordinator.antt =====
-- The coordinator: internal/coordinator with its data (internal/models), its store
-- (internal/store), the manifests (internal/manifest) and their dispatch (internal/director).
pub mod Models
pub mod Store
pub mod Requests
pub mod Pairing
pub mod Workers
pub mod Jobs
pub mod Manifest
pub mod Server
pub mod Start
