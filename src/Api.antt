-- ===== src/Api.antt =====
-- api/v1alpha1: the custom resources, and what the Kubernetes libraries add to them.
pub mod Meta
pub mod Chain
pub mod Phase
pub mod Knight
pub mod RoundTable
pub mod Mission
