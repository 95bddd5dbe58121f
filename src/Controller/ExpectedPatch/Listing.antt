-- ===== src/Controller/ExpectedPatch/Listing.antt =====
-- Which finalizers a pod lists under which keys, before and after one call of the batch of
-- `patchAddPodExpectedFinalizer`, where employees are not in local clusters.
use mathlib.Core.Path.{◌∙◌, sym, subst}
use resourceconsist.Base.{
  String, ◌≡◌, ◌≢◌, refl, ◌⊎◌, inl, inr, true, false, Option, none, some, arith, if◌then◌else◌,
  ◌==◌, string_eq, Bool-cases, Option-cases, sum-cases, GoError, ap, or_else, if_true, if_false,
  ==_refl, [],
}
use resourceconsist.Base.GoMap.{GoMap, get, insert, get-insert}
use resourceconsist.Controller.Types.{Pod}
use resourceconsist.Controller.Client.{Client, IsPodPatch, found, MultiCluster, employer_context}
use resourceconsist.Controller.KubeApi.{KubeApi, IsKubeApi, entries, annotation, value_or_empty}
use resourceconsist.Controller.Finalizer.Effect.{pod_at, route-shared}
use resourceconsist.Controller.ExpectedPatch.{
  Done, patch_conditions, add_expected_fetched, add_expected_finalizer, add_to_annotation,
  add_to_conditions, annotated,
}
use resourceconsist.Controller.ExpectedPatch.Effect.{annotation-insert}

module _ (api : KubeApi) where
  -- The entry of the expected finalizers of some conditions.
  abbrev pub entry : String → api.Conditions → Option String
  entry key c = get key (entries (api.expected_finalizers c))

  abbrev pub entry_in : String → GoError ⊎ api.Conditions → Option String
  entry_in key (inl e) = none
  entry_in key (inr c) = entry key c

  abbrev pub text_listing : String → String → Option String
  text_listing key text =
      if text == "" then none else entry_in key (api.unmarshal text api.zero_value)

  -- What the annotation of the pod lists under the key; a text that is no JSON lists nothing.
  abbrev pub listing : String → Pod → Option String
  listing key pod =
      text_listing key (annotation api.pod_available_conditions_annotation pod.annotations)

  pub listing-annotated :
      (pod : Pod) (text key : String) (d : api.Conditions)
      → text ≢ ""
      → api.unmarshal text api.zero_value ≡ inr d
      → listing key (annotated api pod text) ≡ entry key d
  listing-annotated pod text key d some_text parsed =
      ap (text_listing key) (
        annotation-insert api key api.pod_available_conditions_annotation text
          (entries pod.annotations))
      ∙ ground (arith, some_text, parsed)

  pub listing-marshal :
      IsKubeApi api
      → (pod : Pod) (c : api.Conditions) (text key : String) → api.marshal c ≡ inr text
      → listing key (annotated api pod text) ≡ entry key c
  listing-marshal laws pod c text key written =
      let (d, parsed) = laws.unmarshal-marshal c text written in
      listing-annotated pod text key d (laws.marshal_ne_empty c text written) parsed
      ∙ laws.get-unmarshal-marshal c d text key written parsed

module _ (k : Client) (patches : IsPodPatch k) (api : KubeApi) (laws : IsKubeApi api)
    (m : MultiCluster) (shared : m ≢ some false) (ns key flz : String) (named : flz ≢ "") where
  -- The pod lists what it listed, and the finalizer under the key.
  abbrev pub ListsToo : Pod → Pod → Type 0
  ListsToo pod q =
      (j : String)
      → listing api j q ≡ or_else (if key == j then some flz else none) (listing api j pod)

  -- A call for `name` that has set `Succeed`.
  abbrev pub Added : String → Pod → Done k.World → Type 0
  Added name pod r =
      r.1 ≡ true
      → (q : Pod) × (pod_at k m ns name r.2 ≡ found q)
        × ((q ≡ pod) ⊎ ((text : String) × (q ≡ annotated api pod text)))
        × ListsToo pod q

  patch_conditions-Added :
      (name : String) (w : k.World) (pod : Pod) (c : api.Conditions) (f : GoMap String)
      → pod_at k m ns name w ≡ found pod
      → ((j : String) → listing api j pod ≡ get j f)
      → Added name pod (
          patch_conditions k api m ns key flz
            (employer_context m)
            pod
            (api.set_expected_finalizers c (insert key flz f))
            w)
  unfolding patch_conditions or_else
  patch_conditions-Added name w pod c f h before =
      let c' = api.set_expected_finalizers c (insert key flz f) in
      elim (sum-cases (api.marshal c')) [
        | inl (e, refused) ↦ rw (refused, patch_conditions) (λ t. cc t)
        | inr (text, written) ↦
            rw (written, patch_conditions)
              (λ t. (
                annotated api pod text,
                ground (
                  arith,
                  t,
                  patches.get-patch_same (employer_context m) ns name pod
                      (insert api.pod_available_conditions_annotation text
                        (entries pod.annotations))
                      w h,
                ),
                inr (text, refl),
                λ j.
                    listing-marshal api laws pod c' text j written
                    ∙ (ap (λ o. get j (entries o)) (laws.expected-set c (insert key flz f))
                        ∙ (get-insert j key flz f ∙ elim (string_eq.dec key j) [
                          | yes p ↦ ground (arith, p)
                          | no p ↦ ground (arith, p, before j)
                        ])),
              ))
      ]

  -- A pod that lists the finalizer under the key already.
  kept-ListsToo :
      (pod : Pod) (f : GoMap String)
      → value_or_empty (get key f) ≡ flz
      → ((j : String) → listing api j pod ≡ get j f)
      → ListsToo pod pod
  unfolding or_else
  kept-ListsToo pod f same before j = elim (string_eq.dec key j) [
    | yes p ↦ elim (Option-cases (get key f)) [
      | inl absent ↦ absurd (named (sym same ∙ ap value_or_empty absent))
      | inr (v, there) ↦
          let is_flz : v ≡ flz = sym (ap value_or_empty there) ∙ same in
          ground (arith, p, before j, there, is_flz)
    ]
    | no p ↦ ground (arith, p)
  ]

  add_to_conditions-Added :
      (name : String) (w : k.World) (pod : Pod) (c : api.Conditions)
      → pod_at k m ns name w ≡ found pod
      → ((j : String) → listing api j pod ≡ entry api j c)
      → Added name pod (add_to_conditions k api m ns key flz (employer_context m) pod c w)
  unfolding add_to_conditions
  add_to_conditions-Added name w pod c h before =
      let f = entries (api.expected_finalizers c) in
      elim (Bool-cases (value_or_empty (get key f) == flz)) [
        | inl there ↦
            rw (there, add_to_conditions)
              (λ _. (pod, h, inl refl, kept-ListsToo pod f (ground (arith, there)) before))
        | inr missing ↦
            rw (missing, add_to_conditions) (patch_conditions-Added name w pod c f h before)
      ]

  add_to_annotation-Added :
      (name text : String) (w : k.World) (pod : Pod)
      → pod_at k m ns name w ≡ found pod
      → annotation api.pod_available_conditions_annotation pod.annotations ≡ text
      → Added name pod (add_to_annotation k api m ns key flz (employer_context m) pod text w)
  unfolding add_to_annotation insert get
  add_to_annotation-Added name text w pod h at = elim (Bool-cases (text == "")) [
    | inl empty ↦
        rw (empty, add_to_annotation)
          (patch_conditions-Added name w pod api.zero_value [] h
            (λ j. ap (text_listing api j) at ∙ rw empty refl))
    | inr some_text ↦ elim (sum-cases (api.unmarshal text api.zero_value)) [
      | inl (bad, unread) ↦ rw (some_text, unread, add_to_annotation) (λ t. cc t)
      | inr (c, parsed) ↦
          rw (some_text, parsed, add_to_annotation)
            (add_to_conditions-Added name w pod c h
              (λ j. ap (text_listing api j) at ∙ rw (some_text, parsed) refl))
    ]
  ]

  add_fetched-Added :
      (name : String) (w : k.World) (pod : Pod)
      → pod_at k m ns name w ≡ found pod
      → Added name pod (add_expected_fetched k api m ns key flz (employer_context m) (found pod) w)
  unfolding add_expected_fetched
  add_fetched-Added name w pod h = elim (Bool-cases pod.deleting) [
    | inl dying ↦
        subst (Added name pod) (sym (if_true {A = Done k.World} pod.deleting _ _ dying)) (λ t. cc t)
    | inr alive ↦
        subst (Added name pod) (sym (if_false {A = Done k.World} pod.deleting _ _ alive))
          (add_to_annotation-Added name _ w pod h refl)
  ]

  pub add-Added :
      (name : String) (w : k.World) (pod : Pod)
      → pod_at k m ns name w ≡ found pod
      → Added name pod (add_expected_finalizer k api m ns key flz name w)
  unfolding add_expected_finalizer
  add-Added name w pod h =
      rw (route-shared m name shared, h, add_expected_finalizer) (add_fetched-Added name w pod h)

module _ (k : Client) (api : KubeApi) (m : MultiCluster) (shared : m ≢ some false)
    (ns key flz : String) (named : flz ≢ "") where
  kept_text :
      (text : String) (pod : Pod) (w : k.World)
      → text_listing api key text ≡ some flz
      → add_to_annotation k api m ns key flz (employer_context m) pod text w ≡ (none, true, w)
  unfolding add_to_annotation add_to_conditions
  kept_text text pod w h = elim (Bool-cases (text == "")) [
    | inl empty ↦ cc (rw empty at h)
    | inr some_text ↦ elim (sum-cases (api.unmarshal text api.zero_value)) [
      | inl (bad, unread) ↦ cc (rw (some_text, unread) at h)
      | inr (c, parsed) ↦
          let there : entry api key c ≡ some flz = rw (some_text, parsed) at h in
          rw (some_text, parsed, add_to_annotation, there, ==_refl flz) refl
    ]
  ]

  -- A call for a pod that lists the finalizer and is not being deleted has `Succeed` set, and writes
  -- nothing.
  pub add-kept :
      (name : String) (w : k.World) (pod : Pod)
      → pod_at k m ns name w ≡ found pod
      → pod.deleting ≡ false
      → listing api key pod ≡ some flz
      → add_expected_finalizer k api m ns key flz name w ≡ (none, true, w)
  unfolding add_expected_finalizer add_expected_fetched
  add-kept name w pod h alive there =
      rw (route-shared m name shared, h, add_expected_finalizer)
        (if_false {A = Done k.World} pod.deleting _ _ alive ∙ kept_text _ pod w there)
