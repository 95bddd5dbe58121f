-- ===== src/Controller/Sync/Keeps.antt =====
-- What the framework's and the adapter's writes keep, `syncEmployer` and `syncEmployees` keep.
use mathlib.Core.List.{Perm}
use resourceconsist.Base.{ℕ, String, Option, some, List, ◌++◌, GoError, string_eq, ◌≡◌, Outcome}
use resourceconsist.Base.Steps.{Keeps, Keeps->>=, wrap_error}
use resourceconsist.Controller.Client.{Client, Employer, employer_context}
use resourceconsist.Controller.KubeApi.{KubeApi}
use resourceconsist.Controller.Adapter.{Adapter, CudResults, StatusRecordOptions}
use resourceconsist.Controller.Finalizer.Keeps.{ensure_lifecycle_finalizer-Keeps}
use resourceconsist.Controller.ExpectedFinalizer.{
  lifecycle_finalizer_recorded_anno_key, lifecycle_finalizer,
}
use resourceconsist.Controller.ExpectedFinalizer.Keeps.{Writes, if-Keeps}
use resourceconsist.Controller.Sync.{
  Visits, call, sync_employer, names_to_forget, ensure_employees, record_employees, sync_employees,
}

-- `P` is kept by all that the adapter does.
pub record AdapterWrites {W R X E : Type 0} (a : Adapter W R X E) (P : W → Type 0) : Type 0 where
  pub selected : (e : Employer) (w : W) → P w → P (a.get_selected_employee_names e w).1
  pub expected_employer : (e : Employer) (w : W) → P w → P (a.get_expected_employer e w).1
  pub current_employer : (e : Employer) (w : W) → P w → P (a.get_current_employer e w).1
  pub create_employer : (rs : List R) (e : Employer) (w : W) → P w → P (a.create_employer rs e w).1
  pub update_employer : (rs : List R) (e : Employer) (w : W) → P w → P (a.update_employer rs e w).1
  pub delete_employer : (rs : List R) (e : Employer) (w : W) → P w → P (a.delete_employer rs e w).1
  pub expected_employee : (e : Employer) (w : W) → P w → P (a.get_expected_employee e w).1
  pub current_employee : (e : Employer) (w : W) → P w → P (a.get_current_employee e w).1
  pub create_employees :
      (es : List E) (e : Employer) (w : W) → P w → P (a.create_employees es e w).1
  pub update_employees :
      (es : List E) (e : Employer) (w : W) → P w → P (a.update_employees es e w).1
  pub delete_employees :
      (es : List E) (e : Employer) (w : W) → P w → P (a.delete_employees es e w).1
  pub statuses :
      (o : StatusRecordOptions W R E) (r : CudResults R) (s : CudResults E) (e : Employer) (w : W)
      → a.status_record ≡ some o
      → P w
      → P (o.record_statuses r s e w).1
  pub error_conditions :
      (o : StatusRecordOptions W R E) (x : GoError) (e : Employer) (w : W)
      → a.status_record ≡ some o
      → P w
      → P (o.record_error_conditions x e w).1

module _ (k : Client) (api : KubeApi) (schedule : List ℕ → List ℕ)
    (fair : (is : List ℕ) → Perm (schedule is) is) {R X E : Type 0} (a : Adapter k.World R X E)
    (P : k.World → Type 0) (writes : Writes k P) (adapter : AdapterWrites a P) where
  -- `P` of the state of the clusters, whatever the employer object.
  abbrev pub InState : Employer × k.World → Type 0
  InState s = P s.1

  module _ (visits : Visits R) where
    pub sync_employer-Keeps :
        (expects currents : List R)
        → Keeps InState (sync_employer k api schedule a visits expects currents)
    unfolding sync_employer
    sync_employer-Keeps expects currents =
        Keeps->>= InState _ _ (λ s h. h)
          (λ cud.
            Keeps->>= InState _ _ (λ s h. adapter.create_employer cud.to_create s.0 s.1 h)
              (λ c.
                Keeps->>= InState _ _ (λ s h. adapter.update_employer cud.to_update s.0 s.1 h)
                  (λ u.
                    Keeps->>= InState _ _ (λ s h. adapter.delete_employer cud.to_delete s.0 s.1 h)
                      (λ d. λ s h. h))))

  names_to_forget-Keeps : Keeps InState (names_to_forget k api schedule a)
  unfolding names_to_forget
  names_to_forget-Keeps (e, w) h =
      if-Keeps {A = Outcome (List String) × (Employer × k.World)} P (λ r. r.1.1) _ _ _
        (Keeps->>= InState
          (wrap_error "GetSelectedEmployeeNames failed, err: "
            (call k api schedule a.get_selected_employee_names))
          _ (λ s h. adapter.selected s.0 s.1 h) (λ names s h. h) (e, w) h)
        h

  ensure_employees-Keeps :
      (to_add to_delete : List String)
      → Keeps InState (ensure_employees k api schedule a to_add to_delete)
  unfolding ensure_employees
  ensure_employees-Keeps to_add to_delete (e, w) h =
      ensure_lifecycle_finalizer-Keeps k a.options.multi_cluster e.namespace
        (lifecycle_finalizer api e.name) P writes.update_pod schedule fair to_add to_delete w h

  record_employees-Keeps :
      (to_add : List String) → Keeps InState (record_employees k api schedule a to_add)
  unfolding record_employees
  record_employees-Keeps to_add (e, w) h =
      if-Keeps {A = Option GoError × (Employer × k.World)} P (λ r. r.1.1) _ _ _
        (writes.patch_employer (employer_context a.options.multi_cluster) e
          lifecycle_finalizer_recorded_anno_key _ w h)
        h

  module _ (visits : Visits E) where
    pub sync_employees-Keeps :
        (expects currents : List E)
        → Keeps InState (sync_employees k api schedule a visits expects currents)
    unfolding sync_employees
    sync_employees-Keeps expects currents =
        Keeps->>= InState _ _ (λ s h. h)
          (λ cud.
            Keeps->>= InState _ _ (λ s h. adapter.create_employees cud.to_create s.0 s.1 h)
              (λ c.
                Keeps->>= InState _ _ (λ s h. adapter.update_employees cud.to_update s.0 s.1 h)
                  (λ u.
                    Keeps->>= InState _ _ (λ s h. adapter.delete_employees cud.to_delete s.0 s.1 h)
                      (λ d.
                        Keeps->>= InState _ _ (λ s h. h)
                          (λ flz. Keeps->>= InState _ _ names_to_forget-Keeps (λ forget.
                            Keeps->>= InState _ _ (ensure_employees-Keeps flz.0 (flz.1 ++ forget))
                              (λ u.
                                Keeps->>= InState _ _ (record_employees-Keeps flz.0)
                                  (λ u s h. h))))))))
