-- ===== src/Core.antt =====
-- core/: the configuration, envelopes, trace keys, validation, the UDP server and client, the broker.
pub mod Envelope
pub mod Tracing
pub mod Logging
pub mod Validate
pub mod Server
pub mod Config
pub mod Client
pub mod Broker
