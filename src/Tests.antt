-- ===== src/Tests.antt =====
-- Concrete runs and instances of the theorems.
mod Sample
mod Codec
mod Handler
mod Order
mod Core
mod Backend
mod Live
mod Flight
mod Redelivery
mod Running
mod Programs
mod EndToEnd
mod Concurrent
mod Answers
mod Traces
mod Setup
