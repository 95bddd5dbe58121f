-- ===== src/Controller/Sync/Lifecycle.antt =====
-- Which pods have the lifecycle finalizer after `syncEmployees`, where employees are not in local
-- clusters.
use mathlib.Core.List.{Perm}
use mathlib.Core.Path.{sym, ◌∙◌, subst}
use resourceconsist.Base.{
  ℕ, String, ◌≡◌, ◌≢◌, ap, false, ◌&&◌, Option, some, List, ◌++◌, GoError, ok, string_eq, if_true,
  if_false, Bool-cases, inl, inr,
}
use resourceconsist.Base.Text.{join}
use resourceconsist.Controller.Client.{
  Client, ReadsOwn, IsPodStore, IsPodPatch, Employer, employer_context,
}
use resourceconsist.Controller.KubeApi.{KubeApi, annotation}
use resourceconsist.Controller.Adapter.{Adapter}
use resourceconsist.Controller.Diff.{ToCud, diff}
use resourceconsist.Controller.Lifecycle.{opts_out}
use resourceconsist.Controller.Finalizer.{ensure_lifecycle_finalizer}
use resourceconsist.Controller.Finalizer.Effect.{pod_at}
use resourceconsist.Controller.Finalizer.Single.{IsEnsured, ensure_lifecycle_finalizer-IsEnsured}
use resourceconsist.Controller.ExpectedFinalizer.{
  lifecycle_finalizer_recorded_anno_key, lifecycle_finalizer, set_annotation,
}
use resourceconsist.Controller.Sync.{
  Visits, Synced, need_record_employees, record_update, ensure_employees, record_employees,
  sync_employees,
}
use resourceconsist.Controller.Sync.Parts.{
  Forgets, after_cud, ready_names, unready_names, sync_employees-Parts, step_error-ok,
}

module _ (k : Client) (store : IsPodStore k) (patches : IsPodPatch k) (api : KubeApi)
    (schedule : List ℕ → List ℕ) (fair : (is : List ℕ) → Perm (schedule is) is) {R X E : Type 0}
    (a : Adapter k.World R X E) (shared : a.options.multi_cluster ≢ some false)
    (own : ReadsOwn k) where
  record_employees-pods :
      (to_add : List String) (s : Employer × k.World) (ns n : String)
      → pod_at k a.options.multi_cluster ns n (record_employees k api schedule a to_add s).1.1
        ≡ pod_at k a.options.multi_cluster ns n s.1
  unfolding record_employees
  record_employees-pods to_add (e, w) ns n =
      let c = employer_context a.options.multi_cluster in
      let text = annotation lifecycle_finalizer_recorded_anno_key e.annotations in
      let update = record_update text to_add in
      elim (Bool-cases (need_record_employees a.options && update.0)) [
        | inl needed ↦
            ap (λ (q : Written). pod_at k a.options.multi_cluster ns n q.1.1)
              (if_true {A = Written} _ _ _ needed)
            ∙ patches.get-patch_employer c c
                (set_annotation lifecycle_finalizer_recorded_anno_key (join "," update.1) e) e ns n
                w
        | inr fine ↦
            ap (λ (q : Written). pod_at k a.options.multi_cluster ns n q.1.1)
              (if_false {A = Written} _ _ _ fine)
      ]
    where
      Written : Type 0
      Written = Option GoError × (Employer × k.World)

  abbrev EnsuredOf : Employer → List String → List String → k.World → Type 0
  EnsuredOf e to_add to_delete w =
      IsEnsured k store a.options.multi_cluster e.namespace (lifecycle_finalizer api e.name) shared
        schedule fair own to_add to_delete w

  ensured_pods :
      (s t t' : Employer × k.World) (to_add to_delete : List String) (u v : Unit {0})
      → ensure_employees k api schedule a to_add to_delete s ≡ (ok u, t)
      → record_employees k api schedule a to_add t ≡ (ok v, t')
      → EnsuredOf s.0 to_add to_delete t'.1
  unfolding ensure_employees
  ensured_pods (e, w) t t' to_add to_delete u v ensured recorded =
      let (no_error, left) =
        step_error-ok "ensureLifecycleFinalizer failed, err: "
          (λ s. (
            (ensure_lifecycle_finalizer k a.options.multi_cluster s.0.namespace
                (lifecycle_finalizer api s.0.name) schedule to_add to_delete s.1).0,
            (
              s.0,
              (ensure_lifecycle_finalizer k a.options.multi_cluster s.0.namespace
                  (lifecycle_finalizer api s.0.name) schedule to_add to_delete s.1).1,
            ),
          ))
          (e, w) t u ensured in
      let i =
        ensure_lifecycle_finalizer-IsEnsured k store a.options.multi_cluster e.namespace
          (lifecycle_finalizer api e.name) shared schedule fair own to_add to_delete w no_error in
      let same : (n : String)
          → pod_at k a.options.multi_cluster e.namespace n t'.1
            ≡ pod_at k a.options.multi_cluster e.namespace n
                (ensure_lifecycle_finalizer k a.options.multi_cluster e.namespace
                  (lifecycle_finalizer api e.name) schedule to_add to_delete w).1 =
        λ n.
          ap (λ q. pod_at k a.options.multi_cluster e.namespace n q.1.1) (sym recorded)
          ∙ record_employees-pods to_add t e.namespace n
          ∙ ap (λ q. pod_at k a.options.multi_cluster e.namespace n q.1) (sym left) in
      record {
        deleted = λ n listed p at. i.deleted n listed p (sym (same n) ∙ at);
        added = λ n listed kept p at. i.added n listed kept p (sym (same n) ∙ at);
      }

  -- If `syncEmployees` ends without an error and the adapter does not opt out, then afterwards no pod
  -- has the lifecycle finalizer that is named by an employee that was deleted, or that was updated or
  -- is unchanged and is not ready, or, where the adapter asks for a record, by a recorded employee
  -- that is not selected any more. Every other pod has it that is named by an employee that was
  -- created, or that was updated or is unchanged and is ready. The adapter is asked for the selected
  -- names in the state that its own creates, updates and deletes have left. Employees are not in local
  -- clusters, and each call that takes the finalizer off a pod reads its own `err`.
  pub sync_employees-IsEnsured :
      (visits : Visits E) (expects currents : List E) (e : Employer) (w : k.World) (r : Synced E)
      (t : Employer × k.World)
      → opts_out a.options ≡ false
      → sync_employees k api schedule a visits expects currents (e, w) ≡ (ok r, t)
      → (cud : ToCud E) × (diff a.employee_methods.get_employee_id a.employee_methods.employee_equal
            visits.expected visits.current expects currents
          ≡ ok cud)
        × (forget : List String) × Forgets k api schedule a e
            (after_cud k api schedule a cud (e, w)).1
            forget
        × IsEnsured k store a.options.multi_cluster e.namespace
            (lifecycle_finalizer api e.name)
            shared
            schedule
            fair
            own
            (ready_names k api schedule a r)
            (unready_names k api schedule a r ++ forget)
            t.1
  sync_employees-IsEnsured visits expects currents e w r t follows h =
      let p = sync_employees-Parts k api schedule a visits expects currents e w r t follows h in
      (
        p.cud,
        p.diffed,
        p.forget,
        p.forgets,
        subst
            (λ f.
              EnsuredOf f (ready_names k api schedule a r)
                (unready_names k api schedule a r ++ p.forget) t.1)
            p.same_employer
            (ensured_pods p.before p.after t (ready_names k api schedule a r)
              (unready_names k api schedule a r ++ p.forget) tt tt p.ensured p.recorded),
      )
