-- ===== src/Controller/ExpectedFinalizer/Deleted.antt =====
-- `ensureExpectedFinalizer` of an employer that is being deleted, where employees are not in local
-- clusters.
use mathlib.Core.List.{Perm}
use mathlib.Core.Path.{sym, ◌∙◌, subst}
use resourceconsist.Base.{
  ℕ, String, ◌≡◌, ◌≢◌, ◌⊎◌, inl, inr, Bool, true, false, none, some, List, [], arith, Option,
  contains, string_eq, Bool-cases, GoError, ◌==◌, if_true, is_empty, Outcome, ok, panic, ap,
}
use resourceconsist.Base.Text.{join}
use resourceconsist.Controller.Types.{AdapterOptions, LifecycleOptions}
use resourceconsist.Controller.Client.{
  Client, IsPodStore, IsPodPatch, MultiCluster, Employer, employer_context,
}
use resourceconsist.Controller.KubeApi.{KubeApi, IsKubeApi, annotation}
use resourceconsist.Controller.Finalizer.Effect.{pod_at}
use resourceconsist.Controller.ExpectedPatch.{
  new_ops, names_with, patch_delete_pod_expected_finalizer,
}
use resourceconsist.Controller.ExpectedPatch.Effect.{Lacks}
use resourceconsist.Controller.ExpectedPatch.Ops.{all_succeed_lem, contains-names_with}
use resourceconsist.Controller.ExpectedPatch.Batches.{
  patch_add-nil, patch_delete-names, patch_delete-IsDeleted,
}
use resourceconsist.Controller.ExpectedFinalizer.{
  employer_key, lifecycle_finalizer, set_annotation, expected_finalizer_added_anno_key,
  patch_pod_expected_finalizer, store_added_names, added_names,
  ensure_expected_finalizer_not_need_record, delete_recorded, ensure_expected_finalizer,
  ensure_expected_finalizer_need_record, ensure_selected, ensure_from_names, returned,
}

eq_nil_of_is_empty : (xs : List String) → is_empty xs ≡ true → xs ≡ []
eq_nil_of_is_empty xs h = ground arith

module _ (k : Client) (api : KubeApi) (m : MultiCluster) (schedule : List ℕ → List ℕ) where
  -- Deleting from the pods alone.
  pub patch_pod-delete :
      (employer : Employer) (names : List String) (w : k.World)
      → let d =
          patch_delete_pod_expected_finalizer k api m employer.namespace
            (employer_key employer)
            (lifecycle_finalizer api employer.name)
            schedule
            (new_ops names)
            w in
        patch_pod_expected_finalizer k api m schedule employer [] (new_ops names) w
        ≡ (api.new_aggregate none d.0, d.1.0, [], d.1.1)
  unfolding patch_pod_expected_finalizer
  patch_pod-delete employer names w = rw (
    patch_add-nil k api m employer.namespace (employer_key employer)
        (lifecycle_finalizer api employer.name) schedule w,
    patch_pod_expected_finalizer,
  )

module _ (k : Client) (store : IsPodStore k) (patches : IsPodPatch k) (api : KubeApi)
    (laws : IsKubeApi api) (m : MultiCluster) (shared : m ≢ some false) (schedule : List ℕ → List ℕ)
    (fair : (is : List ℕ) → Perm (schedule is) is) where
  -- No pod of the employer's namespace with this name lists the employer's key.
  abbrev pub LacksKey : Employer → String → k.World → Type 0
  LacksKey e n w = Lacks api (employer_key e) k m e.namespace n w

  patch_pod-lacks :
      (e : Employer) (names : List String) (w : k.World)
      → let r = patch_pod_expected_finalizer k api m schedule e [] (new_ops names) w in
        is_empty (names_with false r.3) ≡ true
        → (n : String) → contains names n ≡ true
        → LacksKey e n r.1
  patch_pod-lacks e names w =
      let flz = lifecycle_finalizer api e.name in
      let d =
        patch_delete-IsDeleted k store patches api laws m e.namespace (employer_key e) flz shared
          schedule fair names w in
      let named =
        patch_delete-names k api m e.namespace (employer_key e) flz schedule fair names w in
      rw (patch_pod-delete k api m schedule e names w) (λ empty n listed.
        d.lacks n (elim (contains-names_with _ n (ap (λ ns. contains ns n) named ∙ listed)) [
          | inl succeeded ↦ succeeded
          | inr left ↦ cc (eq_nil_of_is_empty _ empty, left)
        ]))

  -- The variant without a record.
  not_need_record-lacks :
      (e : Employer) (selected : List String) (w : k.World)
      → e.deleting ≡ true
      → let r = ensure_expected_finalizer_not_need_record k api m schedule e selected w in
        r.0 ≡ true → (n : String) → contains selected n ≡ true → LacksKey e n r.2
  unfolding ensure_expected_finalizer_not_need_record
  not_need_record-lacks e selected w dying =
      let r = patch_pod_expected_finalizer k api m schedule e [] (new_ops selected) w in
      let same = if_true {A = Bool × Option GoError × k.World} e.deleting _ _ dying in
      λ all n listed.
        subst (λ q. LacksKey e n q.2) (sym same)
          (patch_pod-lacks e selected w (sym (all_succeed_lem r.3) ∙ sym (ap (λ q. q.0) same) ∙ all)
            n listed)

  pub store_added_names-pods :
      (e : Employer) (names : List String) (w : k.World) (n : String)
      → pod_at k m e.namespace n (store_added_names k api m schedule e names w).3
        ≡ pod_at k m e.namespace n w
  unfolding store_added_names
  store_added_names-pods e names w n =
      let text = join "," names in
      elim (Bool-cases (annotation expected_finalizer_added_anno_key e.annotations == text)) [
        | inl same ↦ rw same
        | inr other ↦ rw other (
            patches.get-patch_employer (employer_context m) (employer_context m)
              (set_annotation expected_finalizer_added_anno_key text e) e e.namespace n w)
      ]

  -- The variant with a record.
  need_record-lacks :
      (e : Employer) (selected : List String) (w : k.World)
      → e.deleting ≡ true
      → let r = ensure_expected_finalizer_need_record k api m schedule e selected w in
        r.0 ≡ true
        → (n : String) → (contains selected n ≡ true) ⊎ (contains (added_names e) n ≡ true)
        → LacksKey e n r.3
  unfolding ensure_expected_finalizer_need_record delete_recorded
  need_record-lacks e selected w dying =
      let names = api.set_list (added_names e) selected in
      let r = patch_pod_expected_finalizer k api m schedule e [] (new_ops names) w in
      let left = names_with false r.3 in
      let same = if_true {A = Bool × Option GoError × Employer × k.World} e.deleting _ _ dying in
      λ all n listed.
        subst (λ q. LacksKey e n q.3) (sym same)
          (λ p at.
            patch_pod-lacks e names w (sym (ap (λ q. q.0) same) ∙ all) n
              ((laws.set_list-contains (added_names e) selected n).1
                (elim listed [ inl s ↦ inr s | inr a ↦ inl a ]))
              p (sym (store_added_names-pods e left r.1 n) ∙ at))

  -- The adapter's employees are pods that follow PodOpsLifecycle.
  pub record Follows (options : AdapterOptions) : Type 0 where
    pub lifecycle : LifecycleOptions
    pub implemented : options.lifecycle ≡ some lifecycle
    pub follows : lifecycle.follow_pod_ops_life_cycle ≡ true
    pub are_pods : options.new_employee_is_pod ≢ some false

  pub ensure-follows :
      (options : AdapterOptions) (names : Employer → k.World → Outcome (List String) × k.World)
      (e : Employer) (w : k.World)
      → Follows options
      → ensure_expected_finalizer k api m schedule options names e w
        ≡ ensure_from_names k api m schedule options.need_record_expected_finalizer_condition e
            (names e w)
  unfolding ensure_expected_finalizer
  ensure-follows options names e w f = ground (arith, f.implemented, f.follows, f.are_pods)

  returned-ok : (b : Bool) (e : Option GoError) → returned b e ≡ ok true → b ≡ true
  returned-ok b none h = cc
  returned-ok b (some e) h = cc

  ensure_selected-lacks :
      (record_options : Option Bool) (e : Employer) (selected : List String) (w : k.World)
      → e.deleting ≡ true
      → let r = ensure_selected k api m schedule record_options e selected w in
        r.0 ≡ ok true
        → (n : String)
        → (contains selected n ≡ true)
          ⊎ ((record_options ≡ some true) × (contains (added_names e) n ≡ true))
        → LacksKey e n r.1.1
  unfolding ensure_selected
  ensure_selected-lacks none e selected w dying h n (inl listed) =
      not_need_record-lacks e selected w dying (returned-ok _ _ h) n listed
  ensure_selected-lacks none e selected w dying h n (inr other) = cc (other.0)
  ensure_selected-lacks (some false) e selected w dying h n (inl listed) =
      not_need_record-lacks e selected w dying (returned-ok _ _ h) n listed
  ensure_selected-lacks (some false) e selected w dying h n (inr other) = cc (other.0)
  ensure_selected-lacks (some true) e selected w dying h n (inl listed) =
      need_record-lacks e selected w dying (returned-ok _ _ h) n (inl listed)
  ensure_selected-lacks (some true) e selected w dying h n (inr other) =
      need_record-lacks e selected w dying (returned-ok _ _ h) n (inr other.1)

  -- If `ensureExpectedFinalizer` of an employer that is being deleted returns true and no error, then
  -- no selected pod lists the employer among its expected finalizers any more, and, where the adapter
  -- asks for a record, no recorded pod does. The adapter follows PodOpsLifecycle with employees that
  -- are not in local clusters, and `GetSelectedEmployeeNames` has given the names.
  pub ensure_expected_finalizer-lacks :
      (options : AdapterOptions) (names : Employer → k.World → Outcome (List String) × k.World)
      (e : Employer) (w w' : k.World) (selected : List String)
      → Follows options
      → e.deleting ≡ true
      → names e w ≡ (ok selected, w')
      → (ensure_expected_finalizer k api m schedule options names e w).0 ≡ ok true
      → (n : String)
      → (contains selected n ≡ true)
        ⊎ ((options.need_record_expected_finalizer_condition ≡ some true)
            × (contains (added_names e) n ≡ true))
      → LacksKey e n (ensure_expected_finalizer k api m schedule options names e w).1.1
  ensure_expected_finalizer-lacks options names e w w' selected f dying given h n listed =
      let need = options.need_record_expected_finalizer_condition in
      let same : ensure_expected_finalizer k api m schedule options names e w
          ≡ ensure_selected k api m schedule need e selected w' =
        ensure-follows options names e w f
        ∙ unfold ensure_from_names in ap (ensure_from_names k api m schedule need e) given in
      subst (λ q. LacksKey e n q.1.1) (sym same)
        (ensure_selected-lacks need e selected w' dying (sym (ap (λ q. q.0) same) ∙ h) n listed)

module _ (k : Client) (api : KubeApi) (m : MultiCluster) (schedule : List ℕ → List ℕ) where
  -- Without `ReconcileLifecycleOptions` there is no method to call.
  pub ensure-panics :
      (options : AdapterOptions) (names : Employer → k.World → Outcome (List String) × k.World)
      (e : Employer) (w : k.World)
      → options.lifecycle ≡ none
      → options.new_employee_is_pod ≢ some false
      → ensure_expected_finalizer k api m schedule options names e w ≡ (panic, (e, w))
  unfolding ensure_expected_finalizer
  ensure-panics options names e w missing are_pods = ground (arith, missing, are_pods)
