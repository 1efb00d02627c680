-- ===== src/Netx.antt =====
-- internal/netx: the network helpers that host and services share.
pub mod Path
mod Examples
