-- ===== src/Events.antt =====
-- backend/app/events.py: the broker that hands the events of a run to its subscribers.
pub mod Queue
pub mod Drain
pub mod Admission
pub mod Policy
pub mod Broker
pub mod Delivery
mod Examples
