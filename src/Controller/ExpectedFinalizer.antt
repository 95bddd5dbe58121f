-- ===== src/Controller/ExpectedFinalizer.antt =====
-- `ensureExpectedFinalizer`, its two variants and `patchPodExpectedFinalizer` of
-- pkg/frame/controller/consister.go.
pub mod Deleted
pub mod Record
pub mod Local
pub mod Covers
pub mod Keeps
mod Tests
use resourceconsist.Base.{
  ℕ, String, Bool, true, false, not, Option, none, some, List, [], ◌∷◌, ◌++◌, if◌then◌else◌,
  is_empty, GoError, wrap, ◌==◌, string_eq, Outcome, ok, err, panic,
}
use resourceconsist.Base.GoMap.{insert}
use resourceconsist.Base.Text.{split, join}
use resourceconsist.Controller.Types.{AdapterOptions}
use resourceconsist.Controller.Client.{Client, Employer, MultiCluster, employer_context}
use resourceconsist.Controller.KubeApi.{KubeApi, entries, annotation}
use resourceconsist.Controller.ExpectedPatch.{
  OpsList, new_ops, all_succeed, any_succeed, names_with, patch_add_pod_expected_finalizer,
  patch_delete_pod_expected_finalizer,
}
use resourceconsist.Utils.Names.{generate_lifecycle_finalizer_key, generate_lifecycle_finalizer}

abbrev pub expected_finalizer_added_anno_key : String
expected_finalizer_added_anno_key =
    "resource-consist.kusionstack.io/employees-expected-finalizer-added"

abbrev pub lifecycle_finalizer_recorded_anno_key : String
lifecycle_finalizer_recorded_anno_key =
    "resource-consist.kusionstack.io/employees-lifecycle-finalizer-recorded"

-- The names of the first list for which `has` does not hold.
abbrev pub names_outside : (String → Bool) → List String → List String
names_outside has [] = []
names_outside has (n ∷ ns) = let rest = names_outside has ns in if has n then rest else n ∷ rest

abbrev pub set_annotation : String → String → Employer → Employer
set_annotation key text e = record e {
  meta = record e.meta { annotations = some (insert key text (entries e.annotations)) };
}

-- What a caller sees of a result and an error: the error, if there is one.
abbrev pub returned : Bool → Option GoError → Outcome Bool
returned b none = ok b
returned b (some e) = err e

-- `utils.GenerateLifecycleFinalizerKey(employer)`
abbrev pub employer_key : Employer → String
employer_key e = generate_lifecycle_finalizer_key e.kind e.namespace e.name

-- `utils.GenerateLifecycleFinalizer(name)`
abbrev pub lifecycle_finalizer : KubeApi → String → String
lifecycle_finalizer api name =
    generate_lifecycle_finalizer api.pod_operation_protection_finalizer_prefix api.md5_hex name

-- `strings.Split(employer.GetAnnotations()[expectedFinalizerAddedAnnoKey], ",")`
pub added_names : Employer → List String
added_names employer =
    split b',' (annotation expected_finalizer_added_anno_key employer.annotations)

module _ (k : Client) (api : KubeApi) (multi_cluster : MultiCluster)
    (schedule : List ℕ → List ℕ) where
  -- The error, the state, and the two lists with `Succeed` set.
  pub patch_pod_expected_finalizer :
      Employer → OpsList → OpsList → k.World → Option GoError × k.World × OpsList × OpsList
  patch_pod_expected_finalizer employer to_add to_delete w =
      let ns = employer.namespace in
      let key = employer_key employer in
      let flz = lifecycle_finalizer api employer.name in
      let (add_error, (w', added)) =
        patch_add_pod_expected_finalizer k api multi_cluster ns key flz schedule to_add w in
      let (delete_error, (w'', deleted)) =
        patch_delete_pod_expected_finalizer k api multi_cluster ns key flz schedule to_delete w' in
      (api.new_aggregate add_error delete_error, w'', added, deleted)

  pub ensure_expected_finalizer_not_need_record :
      Employer → List String → k.World → Bool × Option GoError × k.World
  ensure_expected_finalizer_not_need_record employer selected w =
      if employer.deleting
      then (let (e, w', _, deleted) =
            patch_pod_expected_finalizer employer [] (new_ops selected) w in
          (all_succeed deleted, e, w'))
      else (let (e, w', _, deleted) =
            patch_pod_expected_finalizer employer (new_ops selected) [] w in
          (any_succeed deleted, e, w'))

  -- The names are joined and stored in the employer's annotation, unless they are there already:
  -- whether they were not, the error of the patch, the object and the state.
  pub store_added_names :
      Employer → List String → k.World → Bool × Option GoError × Employer × k.World
  store_added_names employer names w =
      let text = join "," names in
      if annotation expected_finalizer_added_anno_key employer.annotations == text
      then (false, none, employer, w)
      else (let employer' = set_annotation expected_finalizer_added_anno_key text employer in
          let (e, w') = k.patch_employer (employer_context multi_cluster) employer' employer w in
          (true, e, employer', w'))

  -- The branch for an employer that is being deleted: the error of the pods' patches is dropped.
  pub delete_recorded :
      Employer → List String → k.World → Bool × Option GoError × Employer × k.World
  delete_recorded employer selected w =
      let to_delete = new_ops (api.set_list (added_names employer) selected) in
      let (_, w', _, deleted) = patch_pod_expected_finalizer employer [] to_delete w in
      let names = names_with false deleted in
      let (_, e, employer', w'') = store_added_names employer names w' in
      (is_empty names, e, employer', w'')

  -- `addedNames`: the recorded names less those that were deleted, and the names that were added.
  abbrev pub next_names : List String → OpsList → OpsList → List String
  next_names recorded added deleted =
      names_outside (api.set_has (names_with true deleted)) recorded ++ names_with true added

  -- The branch for any other employer. Where the record does not change, the error of the pods'
  -- patches is dropped.
  pub update_recorded :
      Employer → List String → k.World → Bool × Option GoError × Employer × k.World
  update_recorded employer selected w =
      let recorded = added_names employer in
      let to_delete = new_ops (names_outside (api.set_has selected) recorded) in
      let to_add = new_ops (names_outside (api.set_has recorded) selected) in
      let (patch_error, w', added, deleted) =
        patch_pod_expected_finalizer employer to_add to_delete w in
      let names = next_names recorded added deleted in
      let (changed, e, employer', w'') = store_added_names employer names w' in
      (is_empty names, if changed then api.new_aggregate patch_error e else none, employer', w'')

  pub ensure_expected_finalizer_need_record :
      Employer → List String → k.World → Bool × Option GoError × Employer × k.World
  ensure_expected_finalizer_need_record employer selected w =
      if employer.deleting
      then delete_recorded employer selected w
      else update_recorded employer selected w

  -- The last part of `ensureExpectedFinalizer`.
  pub ensure_selected :
      Option Bool → Employer → List String → k.World → Outcome Bool × (Employer × k.World)
  ensure_selected (some true) employer selected w =
      let (b, e, employer', w') = ensure_expected_finalizer_need_record employer selected w in
      (returned b e, (employer', w'))
  ensure_selected _ employer selected w =
      let (b, e, w') = ensure_expected_finalizer_not_need_record employer selected w in
      (returned b e, (employer, w'))

  -- The error of `GetSelectedEmployeeNames` is wrapped.
  pub ensure_from_names :
      Option Bool → Employer → Outcome (List String) × k.World → Outcome Bool × (Employer × k.World)
  ensure_from_names record_options employer (ok selected, w) =
      ensure_selected record_options employer selected w
  ensure_from_names record_options employer (err e, w) =
      (err (wrap "get selected employees' names failed, err: " e), (employer, w))
  ensure_from_names record_options employer (panic, w) = (panic, (employer, w))

  -- `names` is `GetSelectedEmployeeNames` of `ReconcileLifecycleOptions`. Of an adapter that does not
  -- implement these options the interface value is nil, and the call panics.
  unfoldable pub ensure_expected_finalizer :
      AdapterOptions
      → (Employer → k.World → Outcome (List String) × k.World)
      → Employer
      → k.World
      → Outcome Bool × (Employer × k.World)
  ensure_expected_finalizer options names employer w =
      if elim options.new_employee_is_pod [ none ↦ false | some is_pod ↦ not is_pod ]
      then (ok true, (employer, w))
      else elim options.lifecycle [
        | none ↦ (panic, (employer, w))
        | some l ↦
            if not l.follow_pod_ops_life_cycle
            then (ok true, (employer, w))
            else ensure_from_names options.need_record_expected_finalizer_condition employer
                (names employer w)
      ]
