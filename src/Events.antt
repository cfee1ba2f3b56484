-- ===== src/Events.antt =====
-- core/events: the durable journal and the event bus over it.
pub mod Journal
pub mod Bus
mod Examples
