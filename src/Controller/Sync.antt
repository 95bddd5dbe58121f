-- ===== src/Controller/Sync.antt =====
-- `syncEmployer` and `syncEmployees` of pkg/frame/controller/consister.go.
pub mod Run
pub mod Keeps
pub mod Clean
pub mod Parts
pub mod Lifecycle
pub mod Record
mod Tests
use resourceconsist.Base.{
  ℕ, String, Bool, true, false, not, ◌&&◌, ◌||◌, Option, none, some, List, [], ◌∷◌, ◌++◌,
  if◌then◌else◌, is_empty, length, eqb, GoError, ◌==◌, string_eq, Outcome, ok, err,
}
use resourceconsist.Base.GoMap.{GoMap}
use resourceconsist.Base.Text.{split, join}
use resourceconsist.Base.Sorting.{sort_strings, deep_equal}
use resourceconsist.Base.Steps.{Step, ◌>>=◌, ◌>>◌, lift, done, wrap_error}
use resourceconsist.Controller.Types.{AdapterOptions}
use resourceconsist.Controller.Client.{Client, Employer, employer_context}
use resourceconsist.Controller.KubeApi.{KubeApi, annotation}
use resourceconsist.Controller.Adapter.{Adapter, CudResults}
use resourceconsist.Controller.Diff.{diff}
use resourceconsist.Controller.Lifecycle.{get_to_add_delete_lifecycle_flz_employees}
use resourceconsist.Controller.Finalizer.{ensure_lifecycle_finalizer}
use resourceconsist.Controller.ExpectedFinalizer.{
  lifecycle_finalizer_recorded_anno_key, lifecycle_finalizer, names_outside, set_annotation,
}

-- The orders in which `range` visits the maps of expected and of current elements.
pub record Visits (E : Type 0) : Type 0 where
  pub expected : GoMap E → GoMap E
  pub current : GoMap E → GoMap E

-- What a sync returns: `isClean`, `cudFailedExist` and the results.
pub record Synced (E : Type 0) : Type 0 where
  pub is_clean : Bool
  pub failed_exist : Bool
  pub results : CudResults E

-- `FollowPodOpsLifeCycle() && NeedRecordLifecycleFinalizerCondition()`
abbrev pub need_record_employees : AdapterOptions → Bool
need_record_employees o = elim o.lifecycle [
  | none ↦ false
  | some l ↦ l.follow_pod_ops_life_cycle && l.need_record_lifecycle_finalizer_condition
]

-- Of the names that the annotation `text` records and of those that have the finalizer now: whether
-- the annotation is to be written, and the names as they are joined for it. `sort.Strings` works in
-- place, where the lengths agree.
unfoldable pub record_update : String → List String → Bool × List String
record_update text to_add =
    if text == ""
    then (not (is_empty to_add), to_add)
    else let recorded = split b',' text in
      if eqb (length recorded) (length to_add)
      then (not (deep_equal (sort_strings recorded) (sort_strings to_add)), sort_strings to_add)
      else (true, to_add)

abbrev pub step_error : {S : Type 0} → (S → Option GoError × S) → Step S (Unit {0})
step_error f s = (elim (f s).0 [ none ↦ ok tt | some e ↦ err e ], (f s).1)

module _ (k : Client) (api : KubeApi) (schedule : List ℕ → List ℕ) where
  -- The employer object and the state of the clusters and the backend.
  abbrev pub State : Type 0
  State = Employer × k.World

  -- A call that is given the employer object.
  abbrev pub call : {A : Type 0} → (Employer → k.World → Outcome A × k.World) → Step State A
  call f (e, w) = ((f e w).0, (e, (f e w).1))

module _ (k : Client) (api : KubeApi) (schedule : List ℕ → List ℕ) {R X E : Type 0}
    (a : Adapter k.World R X E) where
  module _ (visits : Visits R) where
    unfoldable pub sync_employer : List R → List R → Step (Employer × k.World) (Synced R)
    sync_employer expects currents = do
      cud ← wrap_error "diff employer failed, err: " (
          lift (
            diff a.employer_methods.get_employer_id a.employer_methods.employer_equal
              visits.expected visits.current expects currents))
      (succ_create, fail_create) ←
          wrap_error "syncCreate failed, err: "
            (call k api schedule (a.create_employer cud.to_create))
      (succ_update, fail_update) ←
          wrap_error "syncUpdate failed, err: "
            (call k api schedule (a.update_employer cud.to_update))
      (succ_delete, fail_delete) ←
          wrap_error "syncDelete failed, err: "
            (call k api schedule (a.delete_employer cud.to_delete))
      done (record {
        is_clean =
            is_empty cud.unchanged
            && (is_empty cud.to_create && (is_empty cud.to_update && is_empty fail_delete));
        failed_exist =
            not (is_empty fail_create)
            || (not (is_empty fail_update) || not (is_empty fail_delete));
        results = record {
          succ_created = succ_create;
          fail_created = fail_create;
          succ_updated = succ_update;
          fail_updated = fail_update;
          succ_deleted = succ_delete;
          fail_deleted = fail_delete;
          unchanged = cud.unchanged;
        };
      })

  -- The recorded names that are not selected any more.
  unfoldable pub names_to_forget : Step (Employer × k.World) (List String)
  names_to_forget (e, w) =
      let text = annotation lifecycle_finalizer_recorded_anno_key e.annotations in
      if need_record_employees a.options && not (text == "")
      then ((do
        selected ←
            wrap_error "GetSelectedEmployeeNames failed, err: "
              (call k api schedule a.get_selected_employee_names)
        done (names_outside (api.set_has selected) (split b',' text)))
          (e, w))
      else (ok [], (e, w))

  unfoldable pub ensure_employees : List String → List String → Step (Employer × k.World) (Unit {0})
  ensure_employees to_add to_delete = wrap_error "ensureLifecycleFinalizer failed, err: " (
      step_error (λ (e, w).
        let r =
          ensure_lifecycle_finalizer k a.options.multi_cluster e.namespace
            (lifecycle_finalizer api e.name) schedule to_add to_delete w in
        (r.0, (e, r.1))))

  -- The annotation is patched with the names that have the finalizer now.
  unfoldable pub record_employees : List String → Step (Employer × k.World) (Unit {0})
  record_employees to_add = wrap_error "patch lifecycleFinalizerRecordedAnno failed, err: " (
      step_error (λ (e, w).
        let (needed, names) =
          record_update (annotation lifecycle_finalizer_recorded_anno_key e.annotations) to_add in
        let e' = set_annotation lifecycle_finalizer_recorded_anno_key (join "," names) e in
        if need_record_employees a.options && needed
        then (let r = k.patch_employer (employer_context a.options.multi_cluster) e' e w in
            (r.0, (e', r.1)))
        else (none, (e, w))))

  module _ (visits : Visits E) where
    unfoldable pub sync_employees : List E → List E → Step (Employer × k.World) (Synced E)
    sync_employees expects currents = do
      cud ← lift (
          diff a.employee_methods.get_employee_id a.employee_methods.employee_equal visits.expected
            visits.current expects currents)
      (succ_create, fail_create) ←
          wrap_error "syncCreate failed, err: "
            (call k api schedule (a.create_employees cud.to_create))
      (succ_update, fail_update) ←
          wrap_error "syncUpdate failed, err: "
            (call k api schedule (a.update_employees cud.to_update))
      (succ_delete, fail_delete) ←
          wrap_error "syncDelete failed, err: "
            (call k api schedule (a.delete_employees cud.to_delete))
      (to_add, to_delete) ← lift (
          get_to_add_delete_lifecycle_flz_employees a.employee_methods a.options succ_create
            succ_delete succ_update cud.unchanged)
      forget ← names_to_forget
      ensure_employees to_add (to_delete ++ forget)
      record_employees to_add
      done (record {
        is_clean =
            is_empty cud.to_create
            && (is_empty cud.to_update && (is_empty cud.unchanged && is_empty fail_delete));
        failed_exist =
            not (is_empty fail_create)
            || (not (is_empty fail_update) || not (is_empty fail_delete));
        results = record {
          succ_created = succ_create;
          fail_created = fail_create;
          succ_updated = succ_update;
          fail_updated = fail_update;
          succ_deleted = succ_delete;
          fail_deleted = fail_delete;
          unchanged = cud.unchanged;
        };
      })
