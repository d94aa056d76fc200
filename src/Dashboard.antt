-- ===== src/Dashboard.antt =====
-- src/bin/dashboard_server.rs: the engines of a cluster behind the handlers of the dashboard.
pub mod Cluster
pub mod Syncing
pub mod Statements
pub mod Seeded
pub mod Spread
pub mod Rounds
pub mod Walk
pub mod Converge
pub mod Tests
pub mod Report
pub mod Kept
pub mod Steps
pub mod Requests
