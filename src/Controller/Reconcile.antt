-- ===== src/Controller/Reconcile.antt =====
-- `Reconcile` of pkg/frame/controller/resourceconsist_controller.go. Events and logging are left out.
pub mod Early
pub mod Guard
pub mod Clean
mod Tests
use resourceconsist.Base.{
  ℕ, String, Bool, true, false, ◌&&◌, ◌||◌, Option, none, some, List, if◌then◌else◌, GoError,
  errorf, Outcome, ok, err, panic,
}
use resourceconsist.Base.Steps.{Step, ◌>>=◌, ◌>>◌, lift, done}
use resourceconsist.Controller.Client.{Client, Employer, Fetched, found, failed, employer_context}
use resourceconsist.Controller.KubeApi.{KubeApi}
use resourceconsist.Controller.Adapter.{Adapter, CudResults, StatusRecordOptions}
use resourceconsist.Controller.Employer.{ensure_employer_clean_flz, clean_employer_clean_finalizer}
use resourceconsist.Controller.ExpectedFinalizer.{ensure_expected_finalizer}
use resourceconsist.Controller.Sync.{
  Visits, Synced, step_error, call, sync_employer, sync_employees,
}

-- `reconcile.Result`: `RequeueAfter`, if it is set.
pub record Result : Type 0 where
  pub requeue_after : Option ℕ

-- What the syncs give: `isExpectedClean`, and the results of `syncEmployer` and of `syncEmployees`.
pub record Syncs (R E : Type 0) : Type 0 where
  pub is_expected_clean : Bool
  pub employer : Synced R
  pub employees : Synced E

abbrev pub is_all_clean : {R E : Type 0} → Syncs R E → Bool
is_all_clean s = s.employer.is_clean && (s.employees.is_clean && s.is_expected_clean)

abbrev pub any_failed : {R E : Type 0} → Syncs R E → Bool
any_failed s = s.employer.failed_exist || s.employees.failed_exist

module _ (k : Client) (api : KubeApi) (schedule : List ℕ → List ℕ) {R X E : Type 0}
    (a : Adapter k.World R X E) (employer_visits : Visits R) (employee_visits : Visits E) where
  -- What `Reconcile` sees of `ensureEmployerCleanFlz`.
  abbrev pub from_ensured :
      Bool × Option GoError × Employer × k.World → Outcome Bool × (Employer × k.World)
  from_ensured (updated, error, e, w) = (elim error [ none ↦ ok updated | some x ↦ err x ], (e, w))

  -- Whether the employer was updated.
  pub ensure_clean_flz : Step (Employer × k.World) Bool
  ensure_clean_flz (e, w) = from_ensured (ensure_employer_clean_flz k a.options.multi_cluster e w)

  pub ensure_expected : Step (Employer × k.World) Bool
  ensure_expected (e, w) =
      ensure_expected_finalizer k api a.options.multi_cluster schedule a.options
        a.get_selected_employee_names e w

  -- From `ensureExpectedFinalizer` to `syncEmployees`.
  pub sync_all : Step (Employer × k.World) (Syncs R E)
  sync_all = do
    is_expected_clean ← ensure_expected
    expected_employer ← call k api schedule a.get_expected_employer
    current_employer ← call k api schedule a.get_current_employer
    employer ← sync_employer k api schedule a employer_visits expected_employer current_employer
    expected_employees ← call k api schedule a.get_expected_employee
    current_employees ← call k api schedule a.get_current_employee
    employees ← sync_employees k api schedule a employee_visits expected_employees current_employees
    done (record {
      is_expected_clean = is_expected_clean;
      employer = employer;
      employees = employees;
    })

  pub clean_if_done : Bool → Step (Employer × k.World) (Unit {0})
  clean_if_done all_clean = step_error (λ (e, w).
      if all_clean && e.deleting
      then (let r = clean_employer_clean_finalizer k a.options.multi_cluster e w in (r.0, (e, r.1)))
      else (none, (e, w)))

  pub record_statuses :
      Option (StatusRecordOptions k.World R E) → Syncs R E → Step (Employer × k.World) (Unit {0})
  record_statuses none syncs = done tt
  record_statuses (some options) syncs = step_error (λ (e, w).
      let r = options.record_statuses syncs.employer.results syncs.employees.results e w in
      (r.0, (e, r.1)))

  -- The part that runs only if the employer had its clean finalizer: whether some sync has failed.
  pub reconcile_ensured : Step (Employer × k.World) Bool
  reconcile_ensured = do
    syncs ← sync_all
    clean_if_done (is_all_clean syncs)
    record_statuses a.status_record syncs
    done (any_failed syncs)

  pub unless_updated : Bool → Step (Employer × k.World) Bool
  unless_updated updated = if updated then done false else reconcile_ensured

  -- An error is one that the variable `err` holds when `Reconcile` returns.
  pub reconcile_found : Step (Employer × k.World) Bool
  reconcile_found = do updated ← ensure_clean_flz; unless_updated updated

  -- The deferred function. What it assigns to `err` is not returned, since the results of `Reconcile`
  -- have no names.
  pub record_error :
      Option (StatusRecordOptions k.World R E) → GoError → Employer × k.World → k.World
  record_error none x (e, w) = w
  record_error (some options) x (e, w) = (options.record_error_conditions x e w).1

  -- The returns at the end, where `err` is nil.
  pub requeue : Option ℕ → Bool → Outcome Result
  requeue interval false = ok (record { requeue_after = none })
  requeue (some interval) true = ok (record { requeue_after = some interval })
  requeue none true = err (errorf "employer or employees synced failed exist")

  pub finish : Outcome Bool × (Employer × k.World) → Outcome Result × k.World
  finish (ok failed_exist, (e, w)) = (requeue a.requeue_interval failed_exist, w)
  finish (err x, s) = (err x, record_error a.status_record x s)
  finish (panic, (e, w)) = (panic, w)

  pub reconcile_fetched : Fetched Employer → k.World → Outcome Result × k.World
  reconcile_fetched (failed x) w =
      (if x.is_not_found then ok (record { requeue_after = none }) else err x, w)
  reconcile_fetched (found e) w = finish (reconcile_found (e, w))

  pub reconcile : String → String → k.World → Outcome Result × k.World
  reconcile ns name w =
      reconcile_fetched (k.get_employer (employer_context a.options.multi_cluster) ns name w) w
