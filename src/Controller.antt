-- ===== src/Controller.antt =====
-- The controller (services/dt4mob-controller): its state, one update of Hono and Ditto, and the
-- event loop that keeps them in step with the cluster.
pub mod State
pub mod Http
pub mod Sample
pub mod Update
pub mod Loop
pub mod Startup
