-- ===== src/Controller/Reconcile/Early.antt =====
-- Where `Reconcile` ends before it asks the adapter for anything.
use mathlib.Core.Path.{◌∙◌}
use resourceconsist.Base.{
  ℕ, String, ◌≡◌, ◌≢◌, ap, refl, Bool, true, false, ◌||◌, none, some, List, [], ◌∷◌, ◌++◌, Option,
  contains, string_eq, GoError, ok, err, panic,
}
use resourceconsist.Base.Steps.{after, >>=-after}
use resourceconsist.Controller.Client.{Client, Employer, found, employer_context}
use resourceconsist.Controller.KubeApi.{KubeApi}
use resourceconsist.Controller.Adapter.{Adapter}
use resourceconsist.Controller.Finalizer.{without}
use resourceconsist.Controller.Employer.{clean_finalizer, generate_old_clean_flz, set_finalizers}
use resourceconsist.Controller.Employer.Clean.{
  ensure_employer_clean_flz-update, ensure_employer_clean_flz_noop,
}
use resourceconsist.Controller.ExpectedFinalizer.Deleted.{ensure-panics}
use resourceconsist.Controller.Sync.{Visits}
use resourceconsist.Controller.Reconcile.{
  from_ensured, ensure_clean_flz, ensure_expected, sync_all, reconcile_ensured, reconcile_found,
  finish, record_error, reconcile_fetched, reconcile, unless_updated, requeue,
}

-- The employer is being deleted or has the clean finalizer.
abbrev pub is_guarded : Employer → Bool
is_guarded e = e.deleting || contains e.finalizers clean_finalizer

module _ (k : Client) (api : KubeApi) (schedule : List ℕ → List ℕ) {R X E : Type 0}
    (a : Adapter k.World R X E) (employer_visits : Visits R) (employee_visits : Visits E) where
  reconcile-found :
      (ns name : String) (w : k.World) (e : Employer)
      → k.get_employer (employer_context a.options.multi_cluster) ns name w ≡ found e
      → reconcile k api schedule a employer_visits employee_visits ns name w
        ≡ finish k api schedule a employer_visits employee_visits
            (reconcile_found k api schedule a employer_visits employee_visits (e, w))
  unfolding reconcile reconcile_fetched
  reconcile-found ns name w e h =
      ap (λ f. reconcile_fetched k api schedule a employer_visits employee_visits f w) h

  found-guarded :
      (w : k.World) (e : Employer)
      → is_guarded e ≡ true
      → reconcile_found k api schedule a employer_visits employee_visits (e, w)
        ≡ reconcile_ensured k api schedule a employer_visits employee_visits (e, w)
  unfolding reconcile_found unless_updated ensure_clean_flz
  found-guarded w e h =
      >>=-after (ensure_clean_flz k api schedule a employer_visits employee_visits)
        (unless_updated k api schedule a employer_visits employee_visits) (e, w)
        (ap (from_ensured k api schedule a employer_visits employee_visits)
          (ensure_employer_clean_flz_noop k a.options.multi_cluster e w h))

  -- What `Reconcile` of an employer that has its clean finalizer does.
  pub reconcile-guarded :
      (ns name : String) (w : k.World) (e : Employer)
      → k.get_employer (employer_context a.options.multi_cluster) ns name w ≡ found e
      → is_guarded e ≡ true
      → reconcile k api schedule a employer_visits employee_visits ns name w
        ≡ finish k api schedule a employer_visits employee_visits
            (reconcile_ensured k api schedule a employer_visits employee_visits (e, w))
  reconcile-guarded ns name w e h guarded =
      reconcile-found ns name w e h
      ∙ ap (finish k api schedule a employer_visits employee_visits) (found-guarded w e guarded)

  finish-added :
      (o : Option GoError) (e : Employer) (w : k.World)
      → finish k api schedule a employer_visits employee_visits (
          after
            (unless_updated k api schedule a employer_visits employee_visits)
            (from_ensured k api schedule a employer_visits employee_visits (true, o, e, w)))
        ≡ elim o [
          | none ↦ (ok (record { requeue_after = none }), w)
          | some x ↦ (
            err x,
            record_error k api schedule a employer_visits employee_visits a.status_record x (e, w),
          )
        ]
  unfolding finish unless_updated requeue
  finish-added none e w = refl
  finish-added (some x) e w = refl

  -- An employer that is not being deleted and does not have the clean finalizer is updated with it, and
  -- nothing else is done: no adapter is asked, unless the update fails and its error is recorded.
  pub reconcile-unguarded :
      (ns name : String) (w : k.World) (e : Employer)
      → k.get_employer (employer_context a.options.multi_cluster) ns name w ≡ found e
      → is_guarded e ≡ false
      → let e' =
          set_finalizers e
            (without (generate_old_clean_flz e) e.finalizers ++ clean_finalizer ∷ []) in
        let r = k.update_employer (employer_context a.options.multi_cluster) e' w in
        reconcile k api schedule a employer_visits employee_visits ns name w ≡ elim r.0 [
          | none ↦ (ok (record { requeue_after = none }), r.1)
          | some x ↦ (
            err x,
            record_error k api schedule a employer_visits employee_visits a.status_record x
                (e', r.1),
          )
        ]
  unfolding reconcile_found unless_updated ensure_clean_flz finish requeue
  reconcile-unguarded ns name w e h open_for_it =
      let added =
        rw open_for_it at (ensure_employer_clean_flz-update k a.options.multi_cluster e w) in
      reconcile-found ns name w e h
      ∙ ap (finish k api schedule a employer_visits employee_visits) (
          >>=-after (ensure_clean_flz k api schedule a employer_visits employee_visits)
            (unless_updated k api schedule a employer_visits employee_visits) (e, w)
            (ap (from_ensured k api schedule a employer_visits employee_visits) added))
      ∙ finish-added _ _ _

  -- An adapter that implements neither `ReconcileLifecycleOptions` nor watch options with an employee
  -- that is no pod makes `Reconcile` of any employer that has its clean finalizer panic.
  pub reconcile-panics :
      (ns name : String) (w : k.World) (e : Employer)
      → k.get_employer (employer_context a.options.multi_cluster) ns name w ≡ found e
      → is_guarded e ≡ true
      → a.options.lifecycle ≡ none
      → a.options.new_employee_is_pod ≢ some false
      → reconcile k api schedule a employer_visits employee_visits ns name w ≡ (panic, w)
  unfolding reconcile_ensured sync_all ensure_expected finish
  reconcile-panics ns name w e h guarded missing are_pods =
      let stopped =
        ensure-panics k api a.options.multi_cluster schedule a.options a.get_selected_employee_names
          e w missing are_pods in
      reconcile-guarded ns name w e h guarded
      ∙ ap (finish k api schedule a employer_visits employee_visits) (
          >>=-after (sync_all k api schedule a employer_visits employee_visits) _ (e, w)
            (>>=-after (ensure_expected k api schedule a employer_visits employee_visits) _ (e, w)
              stopped))
