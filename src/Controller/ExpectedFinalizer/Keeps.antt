-- ===== src/Controller/ExpectedFinalizer/Keeps.antt =====
-- What the framework's writes keep, `ensureExpectedFinalizer` keeps.
use mathlib.Core.List.{Perm}
use resourceconsist.Base.{
  ℕ, String, Bool, true, false, not, none, some, List, [], GoError, if◌then◌else◌, ◌==◌, string_eq,
  Option, Outcome, ok, err, panic,
}
use resourceconsist.Base.Text.{join}
use resourceconsist.Controller.Types.{Pod, AdapterOptions, LifecycleOptions}
use resourceconsist.Controller.Client.{Client, Context, MultiCluster, Employer, employer_context}
use resourceconsist.Controller.KubeApi.{KubeApi, annotation}
use resourceconsist.Controller.ExpectedPatch.{OpsList, new_ops}
use resourceconsist.Controller.ExpectedPatch.Keeps.{patch_add-Keeps, patch_delete-Keeps}
use resourceconsist.Controller.ExpectedFinalizer.{
  employer_key, lifecycle_finalizer, set_annotation, expected_finalizer_added_anno_key,
  patch_pod_expected_finalizer, store_added_names, delete_recorded, update_recorded,
  ensure_expected_finalizer_not_need_record, ensure_expected_finalizer_need_record, ensure_selected,
  ensure_from_names, ensure_expected_finalizer,
}

-- `P` is kept by all that the framework itself writes, the employer's finalizers aside.
pub record Writes (k : Client) (P : k.World → Type 0) : Type 0 where
  pub update_pod : (c : Context) (p : Pod) (w : k.World) → P w → P (k.update_pod c p w).1
  pub patch_pod : (c : Context) (p base : Pod) (w : k.World) → P w → P (k.patch_pod c p base w).1
  pub patch_employer :
      (c : Context) (e : Employer) (key text : String) (w : k.World)
      → P w
      → P (k.patch_employer c (set_annotation key text e) e w).1

pub if-Keeps :
    {A W : Type 0} (P : W → Type 0) (world : A → W) (b : Bool) (x y : A)
    → P (world x)
    → P (world y)
    → P (world (if b then x else y))
if-Keeps P world true x y p q = p
if-Keeps P world false x y p q = q

module _ (k : Client) (api : KubeApi) (m : MultiCluster) (schedule : List ℕ → List ℕ)
    (fair : (is : List ℕ) → Perm (schedule is) is) (P : k.World → Type 0)
    (writes : Writes k P) where
  patch_pod-Keeps :
      (e : Employer) (adds deletes : OpsList) (w : k.World)
      → P w
      → P (patch_pod_expected_finalizer k api m schedule e adds deletes w).1
  unfolding patch_pod_expected_finalizer
  patch_pod-Keeps e adds deletes w h =
      let flz = lifecycle_finalizer api e.name in
      patch_delete-Keeps k api m e.namespace (employer_key e) flz P writes.patch_pod schedule fair
        deletes _
        (patch_add-Keeps k api m e.namespace (employer_key e) flz P writes.patch_pod schedule fair
          adds w h)

  store-Keeps :
      (e : Employer) (names : List String) (w : k.World)
      → P w
      → P (store_added_names k api m schedule e names w).3
  unfolding store_added_names
  store-Keeps e names w h =
      if-Keeps {A = Bool × Option GoError × Employer × k.World} P (λ r. r.3)
        (annotation expected_finalizer_added_anno_key e.annotations == join "," names) _ _ h
        (writes.patch_employer (employer_context m) e expected_finalizer_added_anno_key
          (join "," names) w h)

  not_need_record-Keeps :
      (e : Employer) (selected : List String) (w : k.World)
      → P w
      → P (ensure_expected_finalizer_not_need_record k api m schedule e selected w).2
  unfolding ensure_expected_finalizer_not_need_record
  not_need_record-Keeps e selected w h =
      if-Keeps {A = Bool × Option GoError × k.World} P (λ r. r.2) e.deleting _ _
        (patch_pod-Keeps e [] (new_ops selected) w h) (patch_pod-Keeps e (new_ops selected) [] w h)

  need_record-Keeps :
      (e : Employer) (selected : List String) (w : k.World)
      → P w
      → P (ensure_expected_finalizer_need_record k api m schedule e selected w).3
  unfolding ensure_expected_finalizer_need_record delete_recorded update_recorded
  need_record-Keeps e selected w h =
      if-Keeps {A = Bool × Option GoError × Employer × k.World} P (λ r. r.3) e.deleting _ _
        (store-Keeps e _ _ (patch_pod-Keeps e [] _ w h))
        (store-Keeps e _ _ (patch_pod-Keeps e _ _ w h))

  ensure_selected-Keeps :
      (record_options : Option Bool) (e : Employer) (selected : List String) (w : k.World)
      → P w
      → P (ensure_selected k api m schedule record_options e selected w).1.1
  unfolding ensure_selected
  ensure_selected-Keeps none e selected w h = not_need_record-Keeps e selected w h
  ensure_selected-Keeps (some false) e selected w h = not_need_record-Keeps e selected w h
  ensure_selected-Keeps (some true) e selected w h = need_record-Keeps e selected w h

  ensure_from_names-Keeps :
      (record_options : Option Bool) (e : Employer) (r : Outcome (List String) × k.World)
      → P r.1
      → P (ensure_from_names k api m schedule record_options e r).1.1
  unfolding ensure_from_names
  ensure_from_names-Keeps record_options e (ok selected, w) h =
      ensure_selected-Keeps record_options e selected w h
  ensure_from_names-Keeps record_options e (err x, w) h = h
  ensure_from_names-Keeps record_options e (panic, w) h = h

  -- What follows once the employees may be pods.
  abbrev followed :
      AdapterOptions
      → Option LifecycleOptions
      → (Employer → k.World → Outcome (List String) × k.World)
      → Employer
      → k.World
      → Outcome Bool × (Employer × k.World)
  followed options lifecycle names e w = elim lifecycle [
    | none ↦ (panic, (e, w))
    | some l ↦
        if not l.follow_pod_ops_life_cycle
        then (ok true, (e, w))
        else ensure_from_names k api m schedule options.need_record_expected_finalizer_condition e
            (names e w)
  ]

  followed-Keeps :
      (options : AdapterOptions) (lifecycle : Option LifecycleOptions)
      (names : Employer → k.World → Outcome (List String) × k.World)
      → ((e : Employer) (w : k.World) → P w → P (names e w).1)
      → (e : Employer) (w : k.World) → P w
      → P (followed options lifecycle names e w).1.1
  followed-Keeps options none names keeps e w h = h
  followed-Keeps options (some l) names keeps e w h =
      if-Keeps {A = Outcome Bool × (Employer × k.World)} P (λ r. r.1.1)
        (not l.follow_pod_ops_life_cycle) (ok true, (e, w))
        (ensure_from_names k api m schedule options.need_record_expected_finalizer_condition e
          (names e w))
        h
        (ensure_from_names-Keeps options.need_record_expected_finalizer_condition e (names e w)
          (keeps e w h))

  pub ensure_expected_finalizer-Keeps :
      (options : AdapterOptions) (names : Employer → k.World → Outcome (List String) × k.World)
      → ((e : Employer) (w : k.World) → P w → P (names e w).1)
      → (e : Employer) (w : k.World) → P w
      → P (ensure_expected_finalizer k api m schedule options names e w).1.1
  unfolding ensure_expected_finalizer
  ensure_expected_finalizer-Keeps options names keeps e w h =
      if-Keeps {A = Outcome Bool × (Employer × k.World)} P (λ r. r.1.1)
        (elim options.new_employee_is_pod [ none ↦ false | some is_pod ↦ not is_pod ])
        (ok true, (e, w)) (followed options options.lifecycle names e w) h
        (followed-Keeps options options.lifecycle names keeps e w h)
