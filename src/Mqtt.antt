-- ===== src/Mqtt.antt =====
-- mqtt: the topics of a domain, the messages that the clients publish and handle, and the client of the
-- cloud.
pub mod Clients
pub mod Laws
pub mod Subscriber
pub mod Sessions
pub mod Opening
pub mod Edge
