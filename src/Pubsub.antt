-- ===== src/Pubsub.antt =====
-- The publish-subscribe service of include/DecentEthereum/Trusted/Pubsub.
pub mod Service
pub mod Handler
pub mod Behaviour
pub mod PastEvents
pub mod Registration
pub mod Requests
pub mod Stored
