-- ===== src/Controller/Adapter.antt =====
-- `ReconcileAdapter` of pkg/frame/controller/types.go, with the optional interfaces that an adapter may
-- implement. An adapter keeps its resources at a backend, which is part of the state `W`; it is given
-- the employer object and does not write to it.
use resourceconsist.Base.{ℕ, String, Option, List, Outcome, GoError}
use resourceconsist.Controller.Types.{IEmployer, IEmployee, AdapterOptions}
use resourceconsist.Controller.Client.{Employer}

-- `CUDEmployerResults`, `CUDEmployeeResults`
pub record CudResults (E : Type 0) : Type 0 where
  pub succ_created : List E
  pub fail_created : List E
  pub succ_updated : List E
  pub fail_updated : List E
  pub succ_deleted : List E
  pub fail_deleted : List E
  pub unchanged : List E

-- `StatusRecordOptions`; a call returns its error, if there is one.
pub record StatusRecordOptions (W R E : Type 0) : Type 0 where
  pub record_statuses : CudResults R → CudResults E → Employer → W → Option GoError × W
  pub record_error_conditions : GoError → Employer → W → Option GoError × W

-- `R` is the type of employers, `E` that of employees, `X` that of their extra status. The first list
-- that a create, an update or a delete returns has succeeded, the second has failed.
-- `get_selected_employee_names` is a method of `ReconcileLifecycleOptions`, and is there only if
-- `options.lifecycle` is; `requeue_interval` is `ReconcileRequeueOptions`.
pub record Adapter (W R X E : Type 0) : Type 0 where
  pub options : AdapterOptions
  pub employer_methods : IEmployer R
  pub employee_methods : IEmployee X E
  pub get_selected_employee_names : Employer → W → Outcome (List String) × W
  pub get_expected_employer : Employer → W → Outcome (List R) × W
  pub get_current_employer : Employer → W → Outcome (List R) × W
  pub create_employer : List R → Employer → W → Outcome (List R × List R) × W
  pub update_employer : List R → Employer → W → Outcome (List R × List R) × W
  pub delete_employer : List R → Employer → W → Outcome (List R × List R) × W
  pub get_expected_employee : Employer → W → Outcome (List E) × W
  pub get_current_employee : Employer → W → Outcome (List E) × W
  pub create_employees : List E → Employer → W → Outcome (List E × List E) × W
  pub update_employees : List E → Employer → W → Outcome (List E × List E) × W
  pub delete_employees : List E → Employer → W → Outcome (List E × List E) × W
  pub status_record : Option (StatusRecordOptions W R E)
  pub requeue_interval : Option ℕ
