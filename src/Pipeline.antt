-- ===== src/Pipeline.antt =====
-- The parts put together: from the datagrams of udp_receiver/main.py over the exchange to the tables
-- and the clients of backend/app.py.
pub mod Carried
pub mod Arrival
pub mod Concurrent
pub mod Traced
