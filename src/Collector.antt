-- ===== src/Collector.antt =====
-- pkg/collector: the security event, the parser, the bounded buffer and the reconnecting client.
pub mod Event
pub mod Buffer
pub mod Parser
pub mod Client
pub mod Stream
pub mod Session
