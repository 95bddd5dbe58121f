-- ===== src/Controller/ExpectedPatch/Unlisting.antt =====
-- Which finalizers a pod lists after one call of the batch of `patchDeletePodExpectedFinalizer`, where
-- employees are not in local clusters.
use mathlib.Core.Path.{◌∙◌, sym}
use resourceconsist.Base.{
  String, ◌≡◌, ◌≢◌, refl, inl, inr, true, false, none, some, arith, if◌then◌else◌, ◌==◌, string_eq,
  Bool-cases, Option-cases, sum-cases, ap,
}
use resourceconsist.Base.GoMap.{GoMap, get, insert, erase, get-erase}
use resourceconsist.Controller.Types.{Pod}
use resourceconsist.Controller.Client.{Client, IsPodPatch, found, MultiCluster, employer_context}
use resourceconsist.Controller.KubeApi.{KubeApi, IsKubeApi, entries, annotation}
use resourceconsist.Controller.Finalizer.Effect.{pod_at, route-shared}
use resourceconsist.Controller.ExpectedPatch.{
  Done, annotated, patch_conditions, delete_expected_fetched, delete_expected_finalizer,
  delete_from_annotation, delete_from_conditions,
}
use resourceconsist.Controller.ExpectedPatch.Listing.{entry, listing, text_listing, listing-marshal}

module _ (k : Client) (patches : IsPodPatch k) (api : KubeApi) (laws : IsKubeApi api)
    (m : MultiCluster) (shared : m ≢ some false) (ns key flz : String) where
  -- The pod lists what it listed, but nothing under the key.
  abbrev pub ListsLess : Pod → Pod → Type 0
  ListsLess pod q = (j : String) → listing api j q ≡ (if key == j then none else listing api j pod)

  -- A call for `name` that has set `Succeed`.
  abbrev pub Removed : String → Pod → Done k.World → Type 0
  Removed name pod r = r.1 ≡ true → (q : Pod) × (pod_at k m ns name r.2 ≡ found q) × ListsLess pod q

  patch_conditions-Removed :
      (name : String) (w : k.World) (pod : Pod) (c : api.Conditions) (f : GoMap String)
      → pod_at k m ns name w ≡ found pod
      → ((j : String) → listing api j pod ≡ get j f)
      → Removed name pod (
          patch_conditions k api m ns key flz
            (employer_context m)
            pod
            (api.set_expected_finalizers c (erase key f))
            w)
  unfolding patch_conditions
  patch_conditions-Removed name w pod c f h before =
      let c' = api.set_expected_finalizers c (erase key f) in
      elim (sum-cases (api.marshal c')) [
        | inl (e, refused) ↦ rw (refused, patch_conditions) (λ t. cc t)
        | inr (text, written) ↦
            rw (written, patch_conditions)
              (λ t. (
                annotated api pod text,
                ground (
                  arith,
                  t,
                  patches.get-patch_same (employer_context m) ns name pod
                      (insert api.pod_available_conditions_annotation text
                        (entries pod.annotations))
                      w h,
                ),
                λ j.
                    listing-marshal api laws pod c' text j written
                    ∙ (ap (λ o. get j (entries o)) (laws.expected-set c (erase key f))
                        ∙ (get-erase j key f ∙ ground (arith, before j))),
              ))
      ]

  unlisted-ListsLess : (pod : Pod) → listing api key pod ≡ none → ListsLess pod pod
  unlisted-ListsLess pod absent j = elim (string_eq.dec key j) [
    | yes p ↦ ap (λ i. listing api i pod) (sym p) ∙ (absent ∙ ground (arith, p))
    | no p ↦ ground (arith, p)
  ]

  delete_from_conditions-Removed :
      (name : String) (w : k.World) (pod : Pod) (c : api.Conditions)
      → pod_at k m ns name w ≡ found pod
      → ((j : String) → listing api j pod ≡ entry api j c)
      → Removed name pod (delete_from_conditions k api m ns key flz (employer_context m) pod c w)
  unfolding delete_from_conditions
  delete_from_conditions-Removed name w pod c h before =
      elim (Option-cases (get key (entries (api.expected_finalizers c)))) [
        | inl absent ↦
            rw (absent, delete_from_conditions)
              (λ _. (pod, h, unlisted-ListsLess pod (before key ∙ absent)))
        | inr (v, there) ↦
            rw (there, delete_from_conditions) (patch_conditions-Removed name w pod c _ h before)
      ]

  delete_from_annotation-Removed :
      (name text : String) (w : k.World) (pod : Pod)
      → pod_at k m ns name w ≡ found pod
      → annotation api.pod_available_conditions_annotation pod.annotations ≡ text
      → Removed name pod (delete_from_annotation k api m ns key flz (employer_context m) pod text w)
  unfolding delete_from_annotation
  delete_from_annotation-Removed name text w pod h at = elim (Bool-cases (text == "")) [
    | inl empty ↦
        rw (empty, delete_from_annotation)
          (λ _. (pod, h, unlisted-ListsLess pod (ap (text_listing api key) at ∙ rw empty refl)))
    | inr some_text ↦ elim (sum-cases (api.unmarshal text api.zero_value)) [
      | inl (bad, unread) ↦ rw (some_text, unread, delete_from_annotation) (λ t. cc t)
      | inr (c, parsed) ↦
          rw (some_text, parsed, delete_from_annotation)
            (delete_from_conditions-Removed name w pod c h
              (λ j. ap (text_listing api j) at ∙ rw (some_text, parsed) refl))
    ]
  ]

  pub delete-Removed :
      (name : String) (w : k.World) (pod : Pod)
      → pod_at k m ns name w ≡ found pod
      → Removed name pod (delete_expected_finalizer k api m ns key flz name w)
  unfolding delete_expected_finalizer delete_expected_fetched
  delete-Removed name w pod h =
      rw (route-shared m name shared, h, delete_expected_finalizer)
        (delete_from_annotation-Removed name _ w pod h refl)
