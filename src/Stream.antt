-- ===== src/Stream.antt =====
-- gateway/domain/event_stream.py: the gateway's event stream to its clients.
mod Tests
pub mod Wire
pub mod Frame
pub mod Subscriber
pub mod History
pub mod Broadcaster
pub mod Identity
