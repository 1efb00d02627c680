-- ===== src/Conf.antt =====
-- internal/conf: the configuration of the kernel.
pub mod Types
pub mod Services
pub mod Pointer
pub mod Groups
pub mod Heap
pub mod Keys
pub mod Validate
pub mod Editor
pub mod Store
mod Examples
