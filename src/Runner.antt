-- ===== src/Runner.antt =====
-- The programs around the receiver: udp_receiver/main.py and stream_generator/main.py.
pub mod Metrics
pub mod Receiver
pub mod Generator
