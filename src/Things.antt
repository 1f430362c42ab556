-- ===== src/Things.antt =====
-- things/update_manager_feature.go: the feature through which the cloud drives the agent.
pub mod Feature
pub mod Laws
