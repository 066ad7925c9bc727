-- ===== src/Certificate.antt =====
-- The certificate service (services/dt4mob-certificate-service): configuration, token checks,
-- the issuing handler, and what the program does before it serves.
pub mod Config
pub mod Sample
pub mod Auth
pub mod Handler
pub mod Startup
pub mod Service
