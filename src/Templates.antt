-- ===== src/Templates.antt =====
-- internal/templates: sealed template machines and their manifests.
pub mod Manifest
pub mod Builder
pub mod Bench
pub mod Remove
pub mod Tail
pub mod Recipe
pub mod Build
pub mod Samples
mod Examples
