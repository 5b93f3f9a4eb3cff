-- ===== src/Docker.antt =====
-- internal/docker: the proxy container and its transactions.
pub mod Client
pub mod Health
pub mod Routes
pub mod Diagnose
pub mod Create
pub mod Rollback
pub mod Recreate
pub mod Documented
pub mod Quiet
pub mod Safety
pub mod Lifecycle
pub mod Check
