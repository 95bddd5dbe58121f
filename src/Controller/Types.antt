-- ===== src/Controller/Types.antt =====
-- The data of pkg/frame/controller/types.go, and the parts of the Kubernetes objects that the
-- framework reads and writes.
use resourceconsist.Base.{String, Bool, Option, List, Outcome}
use resourceconsist.Base.GoMap.{GoMap}

-- The object metadata that the framework uses; `deleting` is `!GetDeletionTimestamp().IsZero()`. A
-- map that is `nil` is `none`.
pub record ObjectMeta : Type 0 where
  pub name : String
  pub namespace : String
  pub labels : Option (GoMap String)
  pub annotations : Option (GoMap String)
  pub finalizers : List String
  pub deleting : Bool

-- The condition types that the framework tells apart: `corev1.PodReady`,
-- `v1alpha1.ReadinessGatePodServiceReady`, and any other.
pub data ConditionType : Type 0 where
  pod_ready : ConditionType
  readiness_gate_pod_service_ready : ConditionType
  other_type : String → ConditionType

-- `status_true` is `corev1.ConditionTrue`.
pub data ConditionStatus : Type 0 where
  status_true : ConditionStatus
  status_false : ConditionStatus
  status_unknown : ConditionStatus

pub record PodCondition : Type 0 where
  pub type : ConditionType
  pub status : ConditionStatus

pub record Pod : Type 0 where
  pub meta : ObjectMeta
  pub open meta use *
  pub conditions : List PodCondition
  pub pod_ip : String
  pub pod_ips : List String

-- `PodEmployeeStatuses`; `X` is the type of what an adapter stores in `ExtraStatus`.
pub record PodEmployeeStatuses (X : Type 0) : Type 0 where
  pub ip : String
  pub ipv6 : String
  pub lifecycle_ready : Bool
  pub extra_status : X

-- The methods of the interface `IEmployer` that the framework calls.
pub record IEmployer (R : Type 0) : Type 0 where
  pub get_employer_id : R → String
  pub employer_equal : R → R → Outcome Bool

-- The methods of the interface `IEmployee` that the framework calls. `get_employee_statuses` is
-- `none` where the assertion `.(PodEmployeeStatuses)` on the result fails.
pub record IEmployee (X E : Type 0) : Type 0 where
  pub get_employee_id : E → String
  pub get_employee_name : E → String
  pub get_employee_statuses : E → Option (PodEmployeeStatuses X)
  pub employee_equal : E → E → Outcome Bool

-- `PodExpectedFinalizerOps`
pub record PodExpectedFinalizerOps : Type 0 where
  pub name : String
  pub succeed : Bool

-- `ReconcileLifecycleOptions` without `GetSelectedEmployeeNames`, which asks the clusters.
pub record LifecycleOptions : Type 0 where
  pub follow_pod_ops_life_cycle : Bool
  pub need_record_lifecycle_finalizer_condition : Bool

-- The optional interfaces that an adapter implements, each with its answers; `none` where the type
-- assertion on the adapter fails. `new_employee_is_pod` is `isPod(NewEmployee())` of
-- `ReconcileWatchOptions`, `multi_cluster` is `EmployeeFed()` of `MultiClusterOptions`.
pub record AdapterOptions : Type 0 where
  pub lifecycle : Option LifecycleOptions
  pub new_employee_is_pod : Option Bool
  pub multi_cluster : Option Bool
  pub need_record_expected_finalizer_condition : Option Bool
