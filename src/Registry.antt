-- ===== src/Registry.antt =====
-- internal/image/registry: clients for the registries that hold images.
pub mod Outcome
pub mod Client
pub mod Laws
pub mod Rules
mod Examples
