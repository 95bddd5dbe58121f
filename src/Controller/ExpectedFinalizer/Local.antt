-- ===== src/Controller/ExpectedFinalizer/Local.antt =====
-- `ensureExpectedFinalizerNeedRecord` where employees are in local clusters: the empty name that
-- `strings.Split` makes of an empty annotation never leaves the record.
use mathlib.Core.List.{Perm}
use mathlib.Core.Path.{sym, ◌∙◌, subst}
use resourceconsist.Base.{
  ℕ, String, ◌≡◌, refl, ap, Bool, true, false, some, List, [], ◌∷◌, Option, contains, string_eq,
  Bool-cases, inl, inr, GoError, if_true, if_false, is_empty,
}
use resourceconsist.Base.Text.{split}
use resourceconsist.Base.Text.Rounds.{CommaFree, contains-append}
use resourceconsist.Controller.Client.{Client, Employer}
use resourceconsist.Controller.KubeApi.{KubeApi, IsKubeApi}
use resourceconsist.Controller.ExpectedPatch.{new_ops, names_with, OpsList}
use resourceconsist.Controller.ExpectedPatch.Ops.{contains-names_with, op_names}
use resourceconsist.Controller.ExpectedPatch.Batches.{
  patch_delete-names, patch_delete_local-no_name,
}
use resourceconsist.Controller.ExpectedFinalizer.{
  employer_key, lifecycle_finalizer, patch_pod_expected_finalizer, added_names, delete_recorded,
  update_recorded, ensure_expected_finalizer_need_record, names_outside,
}
use resourceconsist.Controller.ExpectedFinalizer.Record.{added_names-store, contains-names_outside}

no_name-CommaFree : CommaFree ""
unfolding split
no_name-CommaFree = refl

module _ (k : Client) (api : KubeApi) (laws : IsKubeApi api) (schedule : List ℕ → List ℕ)
    (fair : (is : List ℕ) → Perm (schedule is) is) where
  -- The record has the empty name.
  abbrev pub HasNoName : Employer → Type 0
  HasNoName e = contains (added_names e) "" ≡ true

  abbrev patch :
      Employer → OpsList → List String → k.World → Option GoError × k.World × OpsList × OpsList
  patch e ops names w =
      patch_pod_expected_finalizer k api (some false) schedule e ops (new_ops names) w

  patch-no_name :
      (e : Employer) (ops : OpsList) (names : List String) (w : k.World)
      → contains (names_with true (patch e ops names w).3) "" ≡ false
  unfolding patch_pod_expected_finalizer
  patch-no_name e ops names w =
      patch_delete_local-no_name k api e.namespace (employer_key e) (lifecycle_finalizer api e.name)
        schedule fair names _

  patch-names :
      (e : Employer) (ops : OpsList) (names : List String) (w : k.World)
      → op_names (patch e ops names w).3 ≡ names
  unfolding patch_pod_expected_finalizer
  patch-names e ops names w =
      patch_delete-names k api (some false) e.namespace (employer_key e)
        (lifecycle_finalizer api e.name) schedule fair names _

  patch-left :
      (e : Employer) (ops : OpsList) (names : List String) (w : k.World)
      → contains names "" ≡ true
      → contains (names_with false (patch e ops names w).3) "" ≡ true
  patch-left e ops names w h =
      elim (contains-names_with (patch e ops names w).3 ""
        (ap (λ ns. contains ns "") (patch-names e ops names w) ∙ h)) [
          | inl done ↦ cc (done, patch-no_name e ops names w)
          | inr left ↦ left
        ]

  is_empty_of_contains :
      (xs : List String) (n : String) → contains xs n ≡ true → is_empty xs ≡ false
  is_empty_of_contains [] n h = cc
  is_empty_of_contains (x ∷ xs) n h = refl

  delete_recorded-no_name :
      (e : Employer) (selected : List String) (w : k.World)
      → HasNoName e
      → let r = delete_recorded k api (some false) schedule e selected w in
        HasNoName r.2 × (r.0 ≡ false)
  unfolding delete_recorded
  delete_recorded-no_name e selected w h =
      let names = api.set_list (added_names e) selected in
      let left =
        patch-left e [] names w ((laws.set_list-contains (added_names e) selected "").1 (inl h)) in
      (
        added_names-store k api (some false) schedule e _ _ "" no_name-CommaFree left,
        is_empty_of_contains _ "" left,
      )

  update_recorded-no_name :
      (e : Employer) (selected : List String) (w : k.World)
      → HasNoName e
      → HasNoName (update_recorded k api (some false) schedule e selected w).2
  unfolding update_recorded
  update_recorded-no_name e selected w h =
      let recorded = added_names e in
      let to_add = new_ops (names_outside (api.set_has recorded) selected) in
      let gone = names_outside (api.set_has selected) recorded in
      let r = patch e to_add gone w in
      let kept =
        contains-names_outside (api.set_has (names_with true r.3)) recorded ""
          (laws.set_has-contains (names_with true r.3) "" ∙ patch-no_name e to_add gone w) h in
      added_names-store k api (some false) schedule e _ _ "" no_name-CommaFree (
        contains-append (names_outside (api.set_has (names_with true r.3)) recorded)
          (names_with true r.2) ""
        ∙ rw kept)

  -- With employees in local clusters, once the record has the empty name, as it has where there is no
  -- annotation, it keeps it whatever `ensureExpectedFinalizerNeedRecord` does, and for an employer
  -- that is being deleted the result is false.
  pub ensure_need_record_local :
      (e : Employer) (selected : List String) (w : k.World)
      → HasNoName e
      → let r = ensure_expected_finalizer_need_record k api (some false) schedule e selected w in
        HasNoName r.2 × (e.deleting ≡ true → r.0 ≡ false)
  unfolding ensure_expected_finalizer_need_record
  ensure_need_record_local e selected w h = elim (Bool-cases e.deleting) [
    | inl dying ↦
        let same = if_true {A = Bool × Option GoError × Employer × k.World} e.deleting _ _ dying in
        let r = delete_recorded-no_name e selected w h in
        (subst (λ q. HasNoName q.2) (sym same) r.0, λ _. ap (λ q. q.0) same ∙ r.1)
    | inr alive ↦
        let same = if_false {A = Bool × Option GoError × Employer × k.World} e.deleting _ _ alive in
        (
          subst (λ q. HasNoName q.2) (sym same) (update_recorded-no_name e selected w h),
          λ dying. cc (alive, dying),
        )
  ]
