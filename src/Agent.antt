-- ===== src/Agent.antt =====
-- api/agent: the update agent that answers the requests of its client and reports for its manager.
pub mod FeedbackNotifier
pub mod StateNotifier
pub mod Callbacks
pub mod Lifecycle
