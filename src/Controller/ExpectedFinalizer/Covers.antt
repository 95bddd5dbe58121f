-- ===== src/Controller/ExpectedFinalizer/Covers.antt =====
-- `ensureExpectedFinalizerNeedRecord` where employees are not in local clusters: the record names
-- every pod that lists the employer.
use mathlib.Core.List.{Perm}
use mathlib.Core.Path.{sym, ◌∙◌, subst}
use resourceconsist.Base.{
  ℕ, String, ◌≡◌, ◌≢◌, ap, Bool, true, false, ◌++◌, ◌⊎◌, some, List, [], arith, Option, contains,
  string_eq, Bool-cases, inl, inr, GoError, if_true, if_false,
}
use resourceconsist.Base.Text.Rounds.{CommaFree, contains-append}
use resourceconsist.Controller.Types.{Pod}
use resourceconsist.Controller.Client.{
  Client, IsPodStore, IsPodPatch, Employer, MultiCluster, found,
}
use resourceconsist.Controller.KubeApi.{KubeApi, IsKubeApi}
use resourceconsist.Controller.Finalizer.Effect.{pod_at}
use resourceconsist.Controller.ExpectedPatch.{new_ops, names_with, OpsList}
use resourceconsist.Controller.ExpectedPatch.Ops.{contains-names_with, op_names}
use resourceconsist.Controller.ExpectedPatch.Batches.{
  Lists, patch_delete-names, patch_delete-IsDeleted, patch_add-IsAdded,
}
use resourceconsist.Controller.ExpectedFinalizer.{
  employer_key, lifecycle_finalizer, patch_pod_expected_finalizer, added_names, store_added_names,
  delete_recorded, update_recorded, ensure_expected_finalizer_need_record, names_outside,
}
use resourceconsist.Controller.ExpectedFinalizer.Record.{added_names-store, contains-names_outside}
use resourceconsist.Controller.ExpectedFinalizer.Deleted.{patch_pod-delete, store_added_names-pods}

module _ (k : Client) (store : IsPodStore k) (patches : IsPodPatch k) (api : KubeApi)
    (laws : IsKubeApi api) (m : MultiCluster) (shared : m ≢ some false) (schedule : List ℕ → List ℕ)
    (fair : (is : List ℕ) → Perm (schedule is) is)
    (comma_free : (c : String) (n : String) (w : k.World) (p : Pod)
      → pod_at k m c n w ≡ found p
      → CommaFree n) where
  -- The pod `n` lists the employer `e`.
  abbrev pub ListsKey : Employer → String → k.World → Type 0
  ListsKey e n w = Lists api (employer_key e) k m e.namespace n w

  -- The record of `f` names each pod that lists `e`.
  abbrev pub Covers : Employer → Employer → k.World → Type 0
  Covers e f w = (n : String) → ListsKey e n w → contains (added_names f) n ≡ true

  abbrev deleted_ops : Employer → List String → List String → k.World → OpsList
  deleted_ops e adds deletes w =
      (patch_pod_expected_finalizer k api m schedule e (new_ops adds) (new_ops deletes) w).3

  abbrev added_ops : Employer → List String → List String → k.World → OpsList
  added_ops e adds deletes w =
      (patch_pod_expected_finalizer k api m schedule e (new_ops adds) (new_ops deletes) w).2

  -- A pod that lists the employer after the patches listed it before or was added, and was not
  -- deleted.
  patch-was_listed :
      (e : Employer) (adds deletes : List String) (w : k.World) (n : String)
      → ListsKey e n
          (patch_pod_expected_finalizer k api m schedule e (new_ops adds) (new_ops deletes) w).1
      → (ListsKey e n w ⊎ (contains (names_with true (added_ops e adds deletes w)) n ≡ true))
        × (contains (names_with true (deleted_ops e adds deletes w)) n ≡ false)
  unfolding patch_pod_expected_finalizer
  patch-was_listed e adds deletes w n (p, at, listed) =
      let flz = lifecycle_finalizer api e.name in
      let a =
        patch_add-IsAdded k store patches api laws m e.namespace (employer_key e) flz shared
          schedule fair adds w in
      let d =
        patch_delete-IsDeleted k store patches api laws m e.namespace (employer_key e) flz shared
          schedule fair deletes _ in
      (
        a.was_listed n (d.was_listed n (p, at, listed)),
        elim (Bool-cases (contains (names_with true (deleted_ops e adds deletes w)) n)) [
          | inl done ↦ cc (d.lacks n done p at, listed)
          | inr left ↦ left
        ],
      )

  patch_pod-names :
      (e : Employer) (adds deletes : List String) (w : k.World)
      → op_names (deleted_ops e adds deletes w) ≡ deletes
  unfolding patch_pod_expected_finalizer
  patch_pod-names e adds deletes w =
      patch_delete-names k api m e.namespace (employer_key e) (lifecycle_finalizer api e.name)
        schedule fair deletes _

  -- A stored list of names that has every pod which lists the employer covers them.
  Covers-store :
      (e : Employer) (names : List String) (w : k.World)
      → ((n : String) → ListsKey e n w → contains names n ≡ true)
      → let r = store_added_names k api m schedule e names w in Covers e r.2 r.3
  Covers-store e names w h n (p, at, listed) =
      let before =
        sym (store_added_names-pods k store patches api laws m shared schedule fair e names w n)
        ∙ at in
      added_names-store k api m schedule e names w n (comma_free e.namespace n w p before)
        (h n (p, before, listed))

  delete_recorded-Covers :
      (e : Employer) (selected : List String) (w : k.World)
      → Covers e e w
      → let r = delete_recorded k api m schedule e selected w in Covers e r.2 r.3
  unfolding delete_recorded
  delete_recorded-Covers e selected w covers =
      let names = api.set_list (added_names e) selected in
      Covers-store e (names_with false (deleted_ops e [] names w)) _ (λ n now.
        let (before, left) = patch-was_listed e [] names w n now in
        elim before [
          | inr added ↦ cc (
            added,
            ap (λ r. contains (names_with true r.2) n)
                (patch_pod-delete k api m schedule e names w),
          )
          | inl listed ↦
              elim (contains-names_with (deleted_ops e [] names w) n (
                ap (λ ns. contains ns n) (patch_pod-names e [] names w)
                ∙ (laws.set_list-contains (added_names e) selected n).1 (inl (covers n listed)))) [
                  | inl done ↦ cc (done, left)
                  | inr kept ↦ kept
                ]
        ])

  update_recorded-Covers :
      (e : Employer) (selected : List String) (w : k.World)
      → Covers e e w
      → let r = update_recorded k api m schedule e selected w in Covers e r.2 r.3
  unfolding update_recorded
  update_recorded-Covers e selected w covers =
      let recorded = added_names e in
      let adds = names_outside (api.set_has recorded) selected in
      let deletes = names_outside (api.set_has selected) recorded in
      let deleted = names_with true (deleted_ops e adds deletes w) in
      let added = names_with true (added_ops e adds deletes w) in
      let stay = names_outside (api.set_has deleted) recorded in
      Covers-store e (stay ++ added) _ (λ n now.
        let (before, left) = patch-was_listed e adds deletes w n now in
        elim before [
          | inr new ↦ ground (arith, contains-append stay added n, new)
          | inl listed ↦ ground (
            arith,
            contains-append stay added n,
            contains-names_outside (api.set_has deleted) recorded n,
            laws.set_has-contains deleted n,
            left,
            covers n listed,
          )
        ])

  -- If the record in the employer's annotation names every pod that lists the employer among its
  -- expected finalizers, then so does the record that `ensureExpectedFinalizerNeedRecord` leaves in
  -- the object, whatever calls have failed. Employees are not in local clusters, and names of pods
  -- have no commas.
  pub ensure_need_record-Covers :
      (e : Employer) (selected : List String) (w : k.World)
      → Covers e e w
      → let r = ensure_expected_finalizer_need_record k api m schedule e selected w in
        Covers e r.2 r.3
  unfolding ensure_expected_finalizer_need_record
  ensure_need_record-Covers e selected w covers =
      let Result : Type 0 = Bool × Option GoError × Employer × k.World in
      elim (Bool-cases e.deleting) [
        | inl dying ↦
            subst (λ (q : Result). Covers e q.2 q.3)
              (sym (if_true {A = Result} e.deleting _ _ dying))
              (delete_recorded-Covers e selected w covers)
        | inr alive ↦
            subst (λ (q : Result). Covers e q.2 q.3)
              (sym (if_false {A = Result} e.deleting _ _ alive))
              (update_recorded-Covers e selected w covers)
      ]
