-- ===== src/Backend.antt =====
-- backend/: the settings, the repository, the broadcast, the consumer and the endpoints.
pub mod Params
pub mod Queries
pub mod Database
pub mod Broadcast
pub mod Consumer
pub mod History
pub mod Current
pub mod Columns
pub mod Flight
pub mod Redelivery
pub mod Embedded
pub mod Monitor
pub mod Socket
pub mod Settings
pub mod Health
pub mod Pool
pub mod App
