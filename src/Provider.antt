-- ===== src/Provider.antt =====
-- internal/provider: the provider that GARM calls.
pub mod World
pub mod Owned
pub mod Resolve
pub mod Delete
pub mod Patterns
pub mod Bootstrap
pub mod Plan
pub mod Admission
pub mod Inject
pub mod Clone
pub mod Create
pub mod Lifecycle
pub mod Safety
mod Shelf
mod Examples
