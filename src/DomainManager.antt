-- ===== src/DomainManager.antt =====
-- updatem/domain: the update manager of one domain, which talks to its agent through a client. The
-- locks make each call atomic; the wait of Get is two calls, with the other calls between them.
pub mod Clock
pub mod Requests
pub mod State
pub mod Watching
