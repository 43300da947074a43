-- ===== src/Websocket.antt =====
-- internal/websocket: the hub and the connections.
pub mod Frames
pub mod Hub
pub mod Client
pub mod Sound
pub mod Handling
pub mod Serving
pub mod Cache
pub mod Steps
pub mod Running
pub mod Honesty
pub mod Freshness
pub mod Routing
pub mod Posting
pub mod Delivery
pub mod Saving
pub mod Fifo
mod Tests
mod QueueTests
