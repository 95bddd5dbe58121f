-- ===== src/Controller/Setup.antt =====
-- `AddToMgr` and `watch` of pkg/frame/controller/resourceconsist_controller.go. What is handed to
-- controller-runtime is a parameter: `O` is the type of prototype objects, `H` of event handlers, `P`
-- of predicates, `L` of rate limiters, `C` of controllers, `M` the state of the manager.
pub mod Sources
use resourceconsist.Base.{ℕ, String, Bool, true, false, not, Option, none, some, if◌then◌else◌}
use resourceconsist.Base.Steps.{Step, ◌>>=◌, ◌>>◌}
use resourceconsist.Controller.Client.{MultiCluster}

-- `source.Kind`, and what `multicluster.FedKind` and `multicluster.ClustersKind` make of it.
pub data Source (O : Type 0) : Type 0 where
  kind : O → Source O
  fed_kind : O → Source O
  clusters_kind : O → Source O

-- The answers of `ReconcileWatchOptions`.
pub record WatchOptions (O H P : Type 0) : Type 0 where
  pub new_employer : O
  pub new_employee : O
  pub employer_event_handler : H
  pub employee_event_handler : H
  pub employer_predicates : P
  pub employee_predicates : P

-- The answers of `ReconcileOptions`, and the options of a controller.
pub record ControllerOptions (L : Type 0) : Type 0 where
  pub max_concurrent : ℕ
  pub rate_limiter : L

abbrev pub default_max_concurrent_reconciles : ℕ
default_max_concurrent_reconciles = 5

module _ {O : Type 0} where
  abbrev pub employer_source : MultiCluster → O → Source O
  employer_source none employer = kind employer
  employer_source (some _) employer = fed_kind employer

  abbrev pub employee_source : MultiCluster → O → Source O
  employee_source none employee = kind employee
  employee_source (some employee_fed) employee =
      if not employee_fed then clusters_kind employee else fed_kind employee

module _ {O H P L C M : Type 0} (defaults : WatchOptions O H P) (default_rate_limiter : L)
    (new_controller : String → ControllerOptions L → Step M C)
    (c_watch : C → Source O → H → P → Step M (Unit {0})) where
  -- `none` where the type assertion on the adapter fails; `defaults` are for Services and pods.
  abbrev pub watch_options : Option (WatchOptions O H P) → WatchOptions O H P
  watch_options none = defaults
  watch_options (some options) = options

  pub watch : C → Option (WatchOptions O H P) → MultiCluster → Step M (Unit {0})
  watch c options multi_cluster = do
    let o = watch_options options
    c_watch c (employer_source multi_cluster o.new_employer) o.employer_event_handler
        o.employer_predicates
    c_watch c (employee_source multi_cluster o.new_employee) o.employee_event_handler
        o.employee_predicates

  abbrev pub controller_options : Option (ControllerOptions L) → ControllerOptions L
  controller_options none = record {
    max_concurrent = default_max_concurrent_reconciles;
    rate_limiter = default_rate_limiter;
  }
  controller_options (some options) = options

  pub add_to_mgr :
      String
      → Option (ControllerOptions L)
      → Option (WatchOptions O H P)
      → MultiCluster
      → Step M (Unit {0})
  add_to_mgr controller_name reconcile_options options multi_cluster = do
    c ← new_controller controller_name (controller_options reconcile_options)
    watch c options multi_cluster
