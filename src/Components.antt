-- ===== src/Components.antt =====
-- internal/components: the installation of the components of a cluster.
pub mod Orchestrator
