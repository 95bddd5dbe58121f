-- ===== src/Webhook/Agrees.antt =====
-- The webhook and the controller list an employer in a pod in the same way.
use mathlib.Core.Path.{◌∙◌, sym, subst}
use Prim.Native.String.append
use resourceconsist.Base.{
  String, ◌<>◌, ◌≡◌, ◌≢◌, refl, ap, true, false, none, some, List, [], ◌∷◌, arith, ◌==◌, string_eq,
  ok, ◌⊎◌, inl, inr, or_else, sum-cases, Bool-cases,
}
use resourceconsist.Base.GoMap.{get}
use resourceconsist.Controller.Types.{Pod}
use resourceconsist.Controller.Client.{Client, IsPodPatch, Employer, MultiCluster, found}
use resourceconsist.Controller.KubeApi.{KubeApi, IsKubeApi, entries, annotation}
use resourceconsist.Controller.Finalizer.Effect.{pod_at}
use resourceconsist.Controller.ExpectedPatch.{annotated, add_expected_finalizer}
use resourceconsist.Controller.ExpectedPatch.Listing.{
  entry, listing, listing-annotated, add-Added, add-kept,
}
use resourceconsist.Controller.ExpectedFinalizer.{employer_key, lifecycle_finalizer}
use resourceconsist.Utils.Names.{generate_lifecycle_finalizer}
use resourceconsist.Webhook.{create, WebhookAdapter, present_conditions, fresh_conditions, mutating}
use resourceconsist.Webhook.Prepared.{finalizer_for, IsPrepared, mutating-IsPrepared}

append-ne_empty : (prefix s : String) → prefix <> ("/" <> s) ≢ ""
append-ne_empty String.[] s h =
    cc (sym (append.cons "/" String.[] s) ∙ (sym (append.nil ("/" <> s)) ∙ h))
append-ne_empty (String.◌∷◌ c prefix) s h = cc (sym (append.cons c prefix ("/" <> s)) ∙ h)

lifecycle_finalizer-ne_empty : (api : KubeApi) (name : String) → lifecycle_finalizer api name ≢ ""
unfolding generate_lifecycle_finalizer
lifecycle_finalizer-ne_empty api name =
    append-ne_empty api.pod_operation_protection_finalizer_prefix _

module _ (api : KubeApi) (laws : IsKubeApi api) where
  present-listing :
      (pod : Pod) (old : api.Conditions) (key : String)
      → present_conditions api pod ≡ ok old
      → entry api key old ≡ listing api key pod
  unfolding present_conditions get
  present-listing pod old key h =
      let text = annotation api.pod_available_conditions_annotation pod.annotations in
      elim (Bool-cases (text == "")) [
        | inl empty ↦
            let same : fresh_conditions api ≡ old = cc (rw empty at h) in
            ap (entry api key) (sym same)
            ∙ (ap (λ o. get key (entries o)) (laws.expected-set api.zero_value []) ∙ rw empty refl)
        | inr some_text ↦ elim (sum-cases (api.unmarshal text (fresh_conditions api))) [
          | inl (e, bad) ↦ cc (rw (some_text, bad) at h)
          | inr (d, parsed) ↦
              let same : d ≡ old = cc (rw (some_text, parsed) at h) in
              let (c, read, agree) = laws.unmarshal-fresh d text parsed in
              ap (entry api key) (sym same) ∙ (agree key ∙ rw (some_text, read) refl)
        ]
      ]

  abbrev pub IsOneOf : Employer → List Employer → Type 0
  IsOneOf e [] = ⊥
  IsOneOf e (f ∷ fs) = (f ≡ e) ⊎ IsOneOf e fs

  -- Employers with the same key have the same name, as those do whose names have no slash.
  abbrev pub KeyNames : List Employer → Type 0
  KeyNames es =
      (e f : Employer)
      → IsOneOf e es
      → IsOneOf f es
      → employer_key f ≡ employer_key e
      → f.name ≡ e.name

  finalizer_for_ends :
      (e : Employer) (es : List Employer)
      → ((f : Employer) → IsOneOf f es → employer_key f ≡ employer_key e → f.name ≡ e.name)
      → (finalizer_for api es (employer_key e) ≡ none)
        ⊎ (finalizer_for api es (employer_key e) ≡ some (lifecycle_finalizer api e.name))
  unfolding finalizer_for or_else
  finalizer_for_ends e [] one = inl refl
  finalizer_for_ends e (f ∷ fs) one =
      elim (finalizer_for_ends e fs (λ g there. one g (inr there))) [
        | inr there ↦ inr (rw there refl)
        | inl absent ↦ elim (string_eq.dec (employer_key f) (employer_key e)) [
          | yes same ↦ inr (
              rw absent
                (ground (arith, same, ap (lifecycle_finalizer api) (one f (inl refl) same))))
          | no other ↦ inl (rw absent (ground (arith, other)))
        ]
      ]

  finalizer_for-IsOneOf :
      (e : Employer) (es : List Employer)
      → ((f : Employer) → IsOneOf f es → employer_key f ≡ employer_key e → f.name ≡ e.name)
      → IsOneOf e es
      → finalizer_for api es (employer_key e) ≡ some (lifecycle_finalizer api e.name)
  unfolding finalizer_for or_else
  finalizer_for-IsOneOf e [] one there = absurd there
  finalizer_for-IsOneOf e (f ∷ fs) one (inr there) =
      rw (finalizer_for-IsOneOf e fs (λ g h. one g (inr h)) there) refl
  finalizer_for-IsOneOf e (f ∷ fs) one (inl same) =
      elim (finalizer_for_ends e fs (λ g h. one g (inr h))) [
        | inr there ↦ rw there refl
        | inl absent ↦
            rw absent
              (ground (arith, ap employer_key same, ap (λ g. lifecycle_finalizer api g.name) same))
      ]

  module _ {W : Type 0} (adapter : WebhookAdapter W) where
    -- A pod that Mutating has prepared lists the employers and what it listed before.
    pub mutating-listing :
        (pod p : Pod) (w w' : W) (es : List Employer) (old : api.Conditions) (key : String)
        → adapter.get_employers_by_employee pod w ≡ (ok es, w')
        → present_conditions api pod ≡ ok old
        → (mutating api adapter (some pod) create w).0 ≡ ok (some p)
        → ((text : String) × (p ≡ annotated api pod text))
          × (listing api key p ≡ or_else (finalizer_for api es key) (listing api key pod))
    mutating-listing pod p w w' es old key given h ended =
        let (text, same, some_text, (d, parsed, lists)) =
          subst (IsPrepared api pod es old) ended
            (mutating-IsPrepared api laws adapter pod w w' es old given h) in
        (
          (text, same),
          ap (listing api key) same
              ∙ (listing-annotated api pod text key d some_text parsed
                  ∙ (lists key
                      ∙ ap (or_else (finalizer_for api es key)) (present-listing pod old key h))),
        )

    module _ (k : Client) (m : MultiCluster) (shared : m ≢ some false) where
      -- A pod that Mutating has prepared needs nothing of the controller: for each of its employers
      -- the function that patchAddPodExpectedFinalizer calls finds the finalizer listed, reports
      -- success and writes nothing. The pod is stored as Mutating has left it and is not being deleted,
      -- employers of the pod that share a key of kind, namespace and name have one name, and employees
      -- are not in local clusters.
      pub mutating-add_kept :
          (pod p : Pod) (w w' : W) (es : List Employer) (old : api.Conditions) (e : Employer)
          (name : String) (v : k.World)
          → adapter.get_employers_by_employee pod w ≡ (ok es, w')
          → present_conditions api pod ≡ ok old
          → (mutating api adapter (some pod) create w).0 ≡ ok (some p)
          → IsOneOf e es
          → KeyNames es
          → pod_at k m e.namespace name v ≡ found p
          → p.deleting ≡ false
          → add_expected_finalizer k api m e.namespace
              (employer_key e)
              (lifecycle_finalizer api e.name)
              name
              v
            ≡ (none, true, v)
      unfolding or_else
      mutating-add_kept pod p w w' es old e name v given h ended there names stored alive =
          let (_, lists) = mutating-listing pod p w w' es old (employer_key e) given h ended in
          add-kept k api m shared e.namespace (employer_key e) (lifecycle_finalizer api e.name)
            (lifecycle_finalizer-ne_empty api e.name) name v p stored alive
            (lists ∙ rw (finalizer_for-IsOneOf e es (λ f h. names e f there h) there) refl)

      -- What the controller would have made of the pod: where a created pod has one employer, and the
      -- same pod, stored without the webhook, is patched by the function that
      -- patchAddPodExpectedFinalizer calls with success, the two pods list the same finalizers under
      -- the same keys, and either differs from the pod in that annotation alone. Employees are not in
      -- local clusters.
      pub mutating-agrees_add :
          (patches : IsPodPatch k) (pod p : Pod) (w w' : W) (old : api.Conditions) (e : Employer)
          (name : String) (v : k.World)
          → adapter.get_employers_by_employee pod w ≡ (ok (e ∷ []), w')
          → present_conditions api pod ≡ ok old
          → (mutating api adapter (some pod) create w).0 ≡ ok (some p)
          → pod_at k m e.namespace name v ≡ found pod
          → let r =
              add_expected_finalizer k api m e.namespace
                (employer_key e)
                (lifecycle_finalizer api e.name)
                name
                v in
            r.1 ≡ true
            → (q : Pod) × (pod_at k m e.namespace name r.2 ≡ found q)
              × ((key : String) → listing api key p ≡ listing api key q)
              × ((text : String) × (p ≡ annotated api pod text))
              × ((q ≡ pod) ⊎ ((text : String) × (q ≡ annotated api pod text)))
      unfolding finalizer_for or_else
      mutating-agrees_add patches pod p w w' old e name v given h ended stored added =
          let flz = lifecycle_finalizer api e.name in
          let (q, at, made, lists) =
            add-Added k patches api laws m shared e.namespace (employer_key e) flz
              (lifecycle_finalizer-ne_empty api e.name) name v pod stored added in
          let listed =
            λ (key : String). mutating-listing pod p w w' (e ∷ []) old key given h ended in
          (q, at, λ key. (listed key).1 ∙ sym (lists key), (listed "").0, made)
