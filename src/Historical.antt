-- ===== src/Historical.antt =====
-- The historical services: events, the store behind them (services/dt4mob-historical-api), and the
-- writer that fills it from Kafka (services/dt4mob-historical-writer).
pub mod Event
pub mod Store
pub mod Service
pub mod Router
pub mod Bag
pub mod Pipeline
pub mod Session
pub mod Settings
pub mod Timescale
pub mod Sample
pub mod Writer
