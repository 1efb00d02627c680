-- ===== src/Service.antt =====
-- internal/service: the service control plane and its data plane.
pub mod Spec
pub mod Instance
pub mod Filepath
pub mod Transport
pub mod Route
pub mod Binding
pub mod Host
mod Examples
