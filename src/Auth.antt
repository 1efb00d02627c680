-- ===== src/Auth.antt =====
-- internal/auth: access decisions and the access rules of the host.
pub mod Policy
pub mod RouteAccess
pub mod Sessions
mod Examples
