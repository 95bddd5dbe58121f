-- ===== src/Controller/ExpectedPatch/Keeps.antt =====
-- What every patch of a pod keeps, the two batches keep.
use mathlib.Core.List.{Perm}
use resourceconsist.Base.{
  ℕ, String, Bool, true, false, List, if◌then◌else◌, ◌==◌, string_eq, Option-cases, Bool-cases,
  sum-cases, inl, inr,
}
use resourceconsist.Base.GoMap.{get}
use resourceconsist.Controller.Types.{Pod}
use resourceconsist.Controller.Client.{Client, Context, Fetched, found, failed, MultiCluster, route}
use resourceconsist.Controller.KubeApi.{KubeApi, entries}
use resourceconsist.Controller.ExpectedPatch.{
  OpsList, Done, patch_conditions, add_to_conditions, add_to_annotation, add_expected_fetched,
  add_expected_finalizer, delete_from_conditions, delete_from_annotation, delete_expected_fetched,
  delete_expected_finalizer, patch_add_pod_expected_finalizer, patch_delete_pod_expected_finalizer,
}
use resourceconsist.Controller.ExpectedPatch.Ops.{batch_ops-keeps}

module _ (k : Client) (api : KubeApi) (m : MultiCluster) (ns key flz : String)
    (P : k.World → Type 0)
    (patch : (c : Context) (p base : Pod) (w : k.World) → P w → P (k.patch_pod c p base w).1) where
  abbrev KeepsDone : k.World → Done k.World → Type 0
  KeepsDone w r = P w → P r.2

  if-KeepsDone :
      (w : k.World) (b : Bool) (x y : Done k.World)
      → KeepsDone w x
      → KeepsDone w y
      → KeepsDone w (if b then x else y)
  if-KeepsDone w true x y p q = p
  if-KeepsDone w false x y p q = q

  patch_conditions-Keeps :
      (c : Context) (p : Pod) (conditions : api.Conditions) (w : k.World)
      → KeepsDone w (patch_conditions k api m ns key flz c p conditions w)
  unfolding patch_conditions
  patch_conditions-Keeps c p conditions w h = elim (sum-cases (api.marshal conditions)) [
    | inl (e, refused) ↦ rw (refused, patch_conditions) h
    | inr (text, written) ↦ rw (written, patch_conditions) (patch c _ p w h)
  ]

  add_to_conditions-Keeps :
      (c : Context) (p : Pod) (conditions : api.Conditions) (w : k.World)
      → KeepsDone w (add_to_conditions k api m ns key flz c p conditions w)
  unfolding add_to_conditions
  add_to_conditions-Keeps c p conditions w =
      if-KeepsDone w _ _ _ (λ h. h) (patch_conditions-Keeps c p _ w)

  delete_from_conditions-Keeps :
      (c : Context) (p : Pod) (conditions : api.Conditions) (w : k.World)
      → KeepsDone w (delete_from_conditions k api m ns key flz c p conditions w)
  unfolding delete_from_conditions
  delete_from_conditions-Keeps c p conditions w h =
      elim (Option-cases (get key (entries (api.expected_finalizers conditions)))) [
        | inl absent ↦ rw (absent, delete_from_conditions) h
        | inr (v, there) ↦ rw (there, delete_from_conditions) (patch_conditions-Keeps c p _ w h)
      ]

  add_to_annotation-Keeps :
      (c : Context) (p : Pod) (text : String) (w : k.World)
      → KeepsDone w (add_to_annotation k api m ns key flz c p text w)
  unfolding add_to_annotation
  add_to_annotation-Keeps c p text w h = elim (Bool-cases (text == "")) [
    | inl empty ↦ (rw empty (patch_conditions-Keeps c p _ w h))
    | inr some_text ↦ elim (sum-cases (api.unmarshal text api.zero_value)) [
      | inl (e, unread) ↦ rw (some_text, unread, add_to_annotation) h
      | inr (conditions, read) ↦
          rw (some_text, read, add_to_annotation) (add_to_conditions-Keeps c p conditions w h)
    ]
  ]

  delete_from_annotation-Keeps :
      (c : Context) (p : Pod) (text : String) (w : k.World)
      → KeepsDone w (delete_from_annotation k api m ns key flz c p text w)
  unfolding delete_from_annotation
  delete_from_annotation-Keeps c p text w h = elim (Bool-cases (text == "")) [
    | inl empty ↦ rw empty h
    | inr some_text ↦ elim (sum-cases (api.unmarshal text api.zero_value)) [
      | inl (e, unread) ↦ rw (some_text, unread, delete_from_annotation) h
      | inr (conditions, read) ↦
          rw (some_text, read, delete_from_annotation)
            (delete_from_conditions-Keeps c p conditions w h)
    ]
  ]

  add_expected_fetched-Keeps :
      (c : Context) (f : Fetched Pod) (w : k.World)
      → KeepsDone w (add_expected_fetched k api m ns key flz c f w)
  unfolding add_expected_fetched
  add_expected_fetched-Keeps c (failed e) w = λ h. h
  add_expected_fetched-Keeps c (found p) w =
      if-KeepsDone w _ _ _ (λ h. h) (add_to_annotation-Keeps c p _ w)

  delete_expected_fetched-Keeps :
      (c : Context) (f : Fetched Pod) (w : k.World)
      → KeepsDone w (delete_expected_fetched k api m ns key flz c f w)
  unfolding delete_expected_fetched
  delete_expected_fetched-Keeps c (failed e) w = if-KeepsDone w _ _ _ (λ h. h) (λ h. h)
  delete_expected_fetched-Keeps c (found p) w = delete_from_annotation-Keeps c p _ w

  add-Keeps :
      (name : String) (w : k.World) → KeepsDone w (add_expected_finalizer k api m ns key flz name w)
  unfolding add_expected_finalizer
  add-Keeps name w h = elim (Option-cases (route m name)) [
    | inl invalid ↦ rw (invalid, add_expected_finalizer) h
    | inr ((c, n), routed) ↦
        rw (routed, add_expected_finalizer) (add_expected_fetched-Keeps c (k.get_pod c ns n w) w h)
  ]

  delete-Keeps :
      (name : String) (w : k.World)
      → KeepsDone w (delete_expected_finalizer k api m ns key flz name w)
  unfolding delete_expected_finalizer
  delete-Keeps name w h = elim (Option-cases (route m name)) [
    | inl invalid ↦ rw (invalid, delete_expected_finalizer) h
    | inr ((c, n), routed) ↦
        rw (routed, delete_expected_finalizer)
          (delete_expected_fetched-Keeps c (k.get_pod c ns n w) w h)
  ]

  module _ (schedule : List ℕ → List ℕ) (fair : (is : List ℕ) → Perm (schedule is) is) where
    pub patch_add-Keeps :
        (ops : OpsList) (w : k.World)
        → P w
        → P (patch_add_pod_expected_finalizer k api m ns key flz schedule ops w).1.0
    unfolding patch_add_pod_expected_finalizer
    patch_add-Keeps ops w =
        batch_ops-keeps schedule fair (add_expected_finalizer k api m ns key flz) (λ t _. P t)
          (λ i t os op here h. add-Keeps op.name t h) ops w

    pub patch_delete-Keeps :
        (ops : OpsList) (w : k.World)
        → P w
        → P (patch_delete_pod_expected_finalizer k api m ns key flz schedule ops w).1.0
    unfolding patch_delete_pod_expected_finalizer
    patch_delete-Keeps ops w =
        batch_ops-keeps schedule fair (delete_expected_finalizer k api m ns key flz) (λ t _. P t)
          (λ i t os op here h. delete-Keeps op.name t h) ops w
