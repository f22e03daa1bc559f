-- ===== src/ModelRouting.antt =====
-- src/domains/model-routing-and-evaluation: the approved-model registry, the policies and the router.
pub mod ApprovedModels
pub mod Router
pub mod Pairing
pub mod Policies
pub mod Loaders
pub mod Samples
mod Witnesses
