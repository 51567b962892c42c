-- ===== src/Controllers.antt =====
-- pkg/controllers: the reconcilers.
pub mod NodeClass
pub mod Hash
pub mod Termination
pub mod Labeling
pub mod GarbageCollection
pub mod Refresh
