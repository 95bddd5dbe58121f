-- ===== src/Controller.antt =====
-- pkg/frame/controller: the reconcile framework.
pub mod Types
pub mod Diff
pub mod PodStatus
pub mod Client
pub mod KubeApi
pub mod Lifecycle
pub mod Finalizer
pub mod Employer
pub mod ExpectedPatch
pub mod ExpectedFinalizer
pub mod Adapter
pub mod Sync
pub mod Reconcile
pub mod Events
pub mod Setup
