-- ===== src/Utils.antt =====
-- pkg/utils: the batch runner and the names of finalizers.
pub mod Batch
pub mod Names
