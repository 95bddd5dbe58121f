-- ===== src/Controller/ExpectedPatch/Effect.antt =====
-- What one call of either batch does to the pods, where employees are not in local clusters.
use mathlib.Core.Path.{◌∙◌}
use resourceconsist.Base.{
  String, ◌≡◌, ◌≢◌, refl, ◌⊎◌, inl, inr, Bool, true, false, none, some, arith, if◌then◌else◌, ◌==◌,
  string_eq, Bool-cases, Option-cases, sum-cases, GoError, is_none, not, ap,
}
use resourceconsist.Base.GoMap.{GoMap, get, insert, erase, get-insert, get-erase}
use resourceconsist.Controller.Types.{Pod}
use resourceconsist.Controller.Client.{
  Client, IsPodStore, IsPodPatch, Fetched, found, failed, MultiCluster, annotate, employer_context,
}
use resourceconsist.Controller.KubeApi.{KubeApi, IsKubeApi, entries, annotation, value_or_empty}
use resourceconsist.Controller.Finalizer.Effect.{pod_at, route-shared}
use resourceconsist.Controller.ExpectedPatch.{
  Done, patch_conditions, add_expected_fetched, delete_expected_fetched, add_expected_finalizer,
  delete_expected_finalizer, add_to_annotation, delete_from_annotation, delete_from_conditions,
  add_to_conditions,
}

module _ (api : KubeApi) (key : String) where
  abbrev pub lists_in : GoError ⊎ api.Conditions → Bool
  lists_in (inl e) = false
  lists_in (inr c) = not (is_none (get key (entries (api.expected_finalizers c))))

  -- The text of the annotation lists the key; a text that is no JSON lists nothing.
  abbrev pub text_lists : String → Bool
  text_lists text = if text == "" then false else lists_in (api.unmarshal text api.zero_value)

  abbrev pub lists_key : Pod → Bool
  lists_key pod = text_lists (annotation api.pod_available_conditions_annotation pod.annotations)

  -- The pod of this name, if there is one, does not list the key.
  abbrev pub Lacks : (k : Client) → MultiCluster → String → String → k.World → Type 0
  Lacks k m ns n w = (p : Pod) → pod_at k m ns n w ≡ found p → lists_key p ≡ false

  lists_in-marshal :
      IsKubeApi api
      → (c : api.Conditions) (text : String) (m : GoMap String)
      → api.marshal (api.set_expected_finalizers c m) ≡ inr text
      → get key m ≡ none
      → (r : GoError ⊎ api.Conditions) → api.unmarshal text api.zero_value ≡ r
      → lists_in r ≡ false
  lists_in-marshal laws c text m h absent (inl e) u = refl
  lists_in-marshal laws c text m h absent (inr d) u = ground (
    arith,
    laws.get-unmarshal-marshal (api.set_expected_finalizers c m) d text key h u,
    laws.expected-set c m,
  )

  text_lists-marshal :
      IsKubeApi api
      → (c : api.Conditions) (text : String) (m : GoMap String)
      → api.marshal (api.set_expected_finalizers c m) ≡ inr text
      → get key m ≡ none
      → text_lists text ≡ false
  text_lists-marshal laws c text m h absent =
      ground
        (arith, lists_in-marshal laws c text m h absent (api.unmarshal text api.zero_value) refl)

  pub annotation-insert :
      (k text : String) (m : GoMap String) → annotation k (some (insert k text m)) ≡ text
  annotation-insert k text m = ground (arith, get-insert k k text m)

  lists_key-annotate :
      IsKubeApi api
      → (c : api.Conditions) (text : String) (pod : Pod) (m : GoMap String)
      → api.marshal (api.set_expected_finalizers c m) ≡ inr text
      → get key m ≡ none
      → lists_key (
          annotate pod
            (insert api.pod_available_conditions_annotation text (entries pod.annotations)))
        ≡ false
  lists_key-annotate laws c text pod m h absent =
      ap text_lists
        (annotation-insert api.pod_available_conditions_annotation text (entries pod.annotations))
      ∙ text_lists-marshal laws c text m h absent

module _ (k : Client) (patches : IsPodPatch k) (m : MultiCluster) (ns : String) where
  -- A patch of the pod `name`: every pod is as it was, or is that pod and has the annotations.
  pub patch-effect :
      (store : IsPodStore k) (name n : String) (w : k.World) (p : Pod) (a : GoMap String)
      → pod_at k m ns name w ≡ found p
      → let r = k.patch_pod (employer_context m) (annotate p a) p w in
        (pod_at k m ns n r.1 ≡ pod_at k m ns n w)
        ⊎ ((n ≡ name) × (r.0 ≡ none) × (pod_at k m ns n r.1 ≡ found (annotate p a)))
  patch-effect store name n w p a h =
      let c = employer_context m in
      let (in_ns, named) = store.get-named c ns name w p h in
      elim (Option-cases (k.patch_pod c (annotate p a) p w).0) [
        | inr (e, refused) ↦ inl (patches.get-patch_failed c c (annotate p a) p ns n w e refused)
        | inl stored ↦ elim (string_eq.dec n name) [
          | yes same ↦ inr (same, stored, rw same (patches.get-patch_same c ns name p a w h stored))
          | no other ↦ inl (
              patches.get-patch_other c c (annotate p a) p ns n w
                (inr (inr (λ e. other (e ∙ named)))))
        ]
      ]

module _ (k : Client) (store : IsPodStore k) (patches : IsPodPatch k) (api : KubeApi)
    (laws : IsKubeApi api) (m : MultiCluster) (ns key flz : String) (shared : m ≢ some false) where
  -- A call for `name`: every pod is as it was, or it is that pod, and `Succeed` was set.
  abbrev pub AddEffect : String → String → k.World → Done k.World → Type 0
  AddEffect name n w r = (pod_at k m ns n r.2 ≡ pod_at k m ns n w) ⊎ ((n ≡ name) × (r.1 ≡ true))

  -- Every pod is as it was, or it is that pod and does not list the key any more.
  abbrev pub DeleteEffect : String → String → k.World → Done k.World → Type 0
  DeleteEffect name n w r =
      (pod_at k m ns n r.2 ≡ pod_at k m ns n w) ⊎ ((n ≡ name) × Lacks api key k m ns n r.2)

  abbrev pub DeleteDone : String → k.World → Done k.World → Type 0
  DeleteDone name w r =
      ((n : String) → DeleteEffect name n w r) × (r.1 ≡ true → Lacks api key k m ns name r.2)

  abbrev stored_in : Pod → String → GoMap String
  stored_in p text = insert api.pod_available_conditions_annotation text (entries p.annotations)

  patch_conditions-add :
      (name n : String) (w : k.World) (p : Pod) (c : api.Conditions)
      → pod_at k m ns name w ≡ found p
      → AddEffect name n w (patch_conditions k api m ns key flz (employer_context m) p c w)
  unfolding patch_conditions
  patch_conditions-add name n w p c h = elim (sum-cases (api.marshal c)) [
    | inl (e, refused) ↦ rw (refused, patch_conditions) (inl refl)
    | inr (text, written) ↦
        rw (written, patch_conditions)
          (elim (patch-effect k patches m ns store name n w p (stored_in p text) h) [
            | inl same ↦ inl same
            | inr (e, fine, _) ↦ inr (e, rw fine)
          ])
  ]

  patch_conditions-delete :
      (name : String) (w : k.World) (p : Pod) (c : api.Conditions) (f : GoMap String)
      → pod_at k m ns name w ≡ found p
      → get key f ≡ none
      → DeleteDone name w (
          patch_conditions k api m ns key flz
            (employer_context m)
            p
            (api.set_expected_finalizers c f)
            w)
  unfolding patch_conditions
  patch_conditions-delete name w p c f h absent =
      elim (sum-cases (api.marshal (api.set_expected_finalizers c f))) [
        | inl (e, refused) ↦ rw (refused, patch_conditions) (λ n. inl refl, λ t. cc t)
        | inr (text, written) ↦
            let clean = lists_key-annotate api key laws c text p f written absent in
            rw (written, patch_conditions)
              (
                λ n. elim (patch-effect k patches m ns store name n w p (stored_in p text) h) [
                  | inl same ↦ inl same
                  | inr (e, _, after) ↦ inr (e, λ q at. cc (clean, after, at))
                ],
                λ t q at. ground (
                  arith,
                  clean,
                  at,
                  patches.get-patch_same (employer_context m) ns name p (stored_in p text) w h,
                ),
              )
      ]

  -- A pod that was read and does not list the key.
  Lacks-read :
      (name : String) (w : k.World) (p : Pod)
      → pod_at k m ns name w ≡ found p
      → lists_key api key p ≡ false
      → Lacks api key k m ns name w
  Lacks-read name w p h absent q at = cc (h, absent, at)

  delete_from_conditions-Done :
      (name : String) (w : k.World) (p : Pod) (c : api.Conditions)
      → pod_at k m ns name w ≡ found p
      → lists_key api key p ≡ lists_in api key (inr c)
      → DeleteDone name w (delete_from_conditions k api m ns key flz (employer_context m) p c w)
  unfolding delete_from_conditions
  delete_from_conditions-Done name w p c h e =
      let f = entries (api.expected_finalizers c) in
      elim (Option-cases (get key f)) [
        | inl absent ↦
            rw (absent, delete_from_conditions)
              (λ n. inl refl, λ _. Lacks-read name w p h (e ∙ rw absent))
        | inr (v, listed) ↦
            rw (listed, delete_from_conditions)
              (patch_conditions-delete name w p c (erase key f) h
                (ground (arith, get-erase key key f)))
      ]

  delete_from_annotation-Done :
      (name text : String) (w : k.World) (p : Pod)
      → pod_at k m ns name w ≡ found p
      → lists_key api key p ≡ text_lists api key text
      → DeleteDone name w (delete_from_annotation k api m ns key flz (employer_context m) p text w)
  unfolding delete_from_annotation
  delete_from_annotation-Done name text w p h e = elim (Bool-cases (text == "")) [
    | inl empty ↦ rw empty (λ n. inl refl, λ _. Lacks-read name w p h (e ∙ rw empty))
    | inr some_text ↦ elim (sum-cases (api.unmarshal text api.zero_value)) [
      | inl (bad, unread) ↦
          rw (some_text, unread, delete_from_annotation) (λ n. inl refl, λ t. cc t)
      | inr (c, parsed) ↦
          rw (some_text, parsed, delete_from_annotation)
            (delete_from_conditions-Done name w p c h (e ∙ rw (some_text, parsed)))
    ]
  ]

  delete_expected_fetched-Done :
      (name : String) (w : k.World) (f : Fetched Pod)
      → pod_at k m ns name w ≡ f
      → DeleteDone name w (delete_expected_fetched k api m ns key flz (employer_context m) f w)
  unfolding delete_expected_fetched
  delete_expected_fetched-Done name w (failed e) h = elim (Bool-cases e.is_not_found) [
    | inl gone ↦ rw gone (λ n. inl refl, λ _ q at. cc (h, at))
    | inr other ↦ rw other (λ n. inl refl, λ t. cc t)
  ]
  delete_expected_fetched-Done name w (found p) h =
      delete_from_annotation-Done name
        (annotation api.pod_available_conditions_annotation p.annotations) w p h refl

  pub delete-Done :
      (name : String) (w : k.World)
      → DeleteDone name w (delete_expected_finalizer k api m ns key flz name w)
  unfolding delete_expected_finalizer
  delete-Done name w =
      rw (route-shared m name shared, delete_expected_finalizer)
        (delete_expected_fetched-Done name w (pod_at k m ns name w) refl)

  add_to_conditions-effect :
      (name n : String) (w : k.World) (p : Pod) (c : api.Conditions)
      → pod_at k m ns name w ≡ found p
      → AddEffect name n w (add_to_conditions k api m ns key flz (employer_context m) p c w)
  unfolding add_to_conditions
  add_to_conditions-effect name n w p c h =
      let f = entries (api.expected_finalizers c) in
      elim (Bool-cases (value_or_empty (get key f) == flz)) [
        | inl there ↦ rw (there, add_to_conditions) (inl refl)
        | inr missing ↦
            rw (missing, add_to_conditions)
              (patch_conditions-add name n w p (api.set_expected_finalizers c (insert key flz f)) h)
      ]

  add_to_annotation-effect :
      (name n text : String) (w : k.World) (p : Pod)
      → pod_at k m ns name w ≡ found p
      → AddEffect name n w (add_to_annotation k api m ns key flz (employer_context m) p text w)
  unfolding add_to_annotation
  add_to_annotation-effect name n text w p h = elim (Bool-cases (text == "")) [
    | inl empty ↦ rw empty (patch_conditions-add name n w p _ h)
    | inr some_text ↦ elim (sum-cases (api.unmarshal text api.zero_value)) [
      | inl (bad, unread) ↦ rw (some_text, unread, add_to_annotation) (inl refl)
      | inr (c, parsed) ↦
          rw (some_text, parsed, add_to_annotation) (add_to_conditions-effect name n w p c h)
    ]
  ]

  AddEffect-if :
      (name n : String) (w : k.World) (b : Bool) (x y : Done k.World)
      → AddEffect name n w x
      → AddEffect name n w y
      → AddEffect name n w (if b then x else y)
  AddEffect-if name n w true x y p q = p
  AddEffect-if name n w false x y p q = q

  add_expected_fetched-effect :
      (name n : String) (w : k.World) (f : Fetched Pod)
      → pod_at k m ns name w ≡ f
      → AddEffect name n w (add_expected_fetched k api m ns key flz (employer_context m) f w)
  unfolding add_expected_fetched
  add_expected_fetched-effect name n w (failed e) h = inl refl
  add_expected_fetched-effect name n w (found p) h =
      AddEffect-if name n w p.deleting _ _ (inl refl) (
        add_to_annotation-effect name n
          (annotation api.pod_available_conditions_annotation p.annotations) w p h)

  pub add-effect :
      (name n : String) (w : k.World)
      → AddEffect name n w (add_expected_finalizer k api m ns key flz name w)
  unfolding add_expected_finalizer
  add-effect name n w =
      rw (route-shared m name shared, add_expected_finalizer)
        (add_expected_fetched-effect name n w (pod_at k m ns name w) refl)
