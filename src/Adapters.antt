-- ===== src/Adapters.antt =====
-- pkg/adapters: the adapters that are built in.
pub mod Slb
pub mod Registry
