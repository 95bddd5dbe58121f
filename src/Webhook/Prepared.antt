-- ===== src/Webhook/Prepared.antt =====
-- What `Mutating` leaves in the annotation of a pod that is created.
use mathlib.Core.Path.{◌∙◌, sym}
use resourceconsist.Base.{
  String, ◌≡◌, ◌≢◌, refl, ap, Option, none, some, List, [], ◌∷◌, arith, if◌then◌else◌, ◌==◌,
  string_eq, Outcome, ok, err, panic, ◌⊎◌, inl, inr, or_else, sum-cases, Option-cases, >>=-eq-ok,
}
use resourceconsist.Base.GoMap.{GoMap, get, insert, get-insert}
use resourceconsist.Base.Steps.{◌>>=◌, lift, done}
use resourceconsist.Controller.Types.{Pod}
use resourceconsist.Controller.Client.{Employer}
use resourceconsist.Controller.KubeApi.{KubeApi, IsKubeApi, entries}
use resourceconsist.Controller.ExpectedPatch.{annotated}
use resourceconsist.Controller.ExpectedPatch.Listing.{entry}
use resourceconsist.Controller.ExpectedFinalizer.{employer_key, lifecycle_finalizer}
use resourceconsist.Webhook.{
  create, WebhookAdapter, present_conditions, expect_in, expect_employers, marshal_into,
  prepare_pod, mutating,
}

module _ (api : KubeApi) where
  -- The finalizer that the last of the employers with this key has.
  unfoldable pub finalizer_for : List Employer → String → Option String
  finalizer_for [] key = none
  finalizer_for (e ∷ es) key =
      or_else (finalizer_for es key)
        (if employer_key e == key then some (lifecycle_finalizer api e.name) else none)

  -- The text is the JSON of conditions that list the employers with their finalizers, and besides
  -- them what `old` listed.
  abbrev pub ListsEmployers : List Employer → api.Conditions → String → Type 0
  ListsEmployers es old text =
      (d : api.Conditions) × (api.unmarshal text api.zero_value ≡ inr d)
      × ((key : String) → entry api key d ≡ or_else (finalizer_for es key) (entry api key old))

  -- What `Mutating` may end in: the pod with another annotation, an error of `json.Marshal`, or a
  -- panic, where there is an employer and the annotation had a nil map.
  abbrev pub IsPrepared : Pod → List Employer → api.Conditions → Outcome (Option Pod) → Type 0
  IsPrepared pod es old (ok none) = ⊥
  IsPrepared pod es old (ok (some p)) =
      (text : String) × (p ≡ annotated api pod text) × (text ≢ "") × ListsEmployers es old text
  IsPrepared pod es old (err e) = (c : api.Conditions) × (api.marshal c ≡ inl e)
  IsPrepared pod es old panic = (api.expected_finalizers old ≡ none) × (es ≢ [])

  module _ (laws : IsKubeApi api) where
    entry-expect_in :
        (m : Option (GoMap String)) (e : Employer) (c d : api.Conditions) (key : String)
        → api.expected_finalizers c ≡ m
        → expect_in api m e c ≡ ok d
        → (entry api key d
            ≡ or_else
                (if employer_key e == key then some (lifecycle_finalizer api e.name) else none)
                (entry api key c))
          × (api.expected_finalizers d ≢ none)
    unfolding or_else
    entry-expect_in none e c d key q h = cc
    entry-expect_in (some m) e c d key q h =
        let m' = insert (employer_key e) (lifecycle_finalizer api e.name) m in
        let same : api.set_expected_finalizers c m' ≡ d = cc h in
        let stored = ap api.expected_finalizers (sym same) ∙ laws.expected-set c m' in
        (
          ap (λ o. get key (entries o)) stored
              ∙ (get-insert key (employer_key e) (lifecycle_finalizer api e.name) m
                  ∙ rw q (elim (string_eq.dec (employer_key e) key) [
                    | yes p ↦ ground (arith, p)
                    | no p ↦ ground (arith, p)
                  ])),
          λ absent. cc (absent, stored),
        )

    or_else_assoc : (a b c : Option String) → or_else a (or_else b c) ≡ or_else (or_else a b) c
    unfolding or_else
    or_else_assoc none b c = refl
    or_else_assoc (some x) b c = refl

    entry-expect_employers :
        (es : List Employer) (c d : api.Conditions) (key : String)
        → expect_employers api es c ≡ ok d
        → entry api key d ≡ or_else (finalizer_for es key) (entry api key c)
    unfolding expect_employers finalizer_for or_else
    entry-expect_employers [] c d key h = cc
    entry-expect_employers (e ∷ es) c d key h =
        let (b, first, rest) =
          >>=-eq-ok (expect_in api (api.expected_finalizers c) e c) (expect_employers api es) h in
        entry-expect_employers es b d key rest
        ∙ ap (or_else (finalizer_for es key))
            (entry-expect_in (api.expected_finalizers c) e c b key refl first).0
        ∙ or_else_assoc (finalizer_for es key) _ (entry api key c)

    -- The loop panics at a nil map, if there is an employer at all, and returns otherwise.
    expect_employers-ends :
        (es : List Employer) (c : api.Conditions)
        → ((d : api.Conditions) × (expect_employers api es c ≡ ok d))
          ⊎ ((expect_employers api es c ≡ panic) × (api.expected_finalizers c ≡ none) × (es ≢ []))
    unfolding expect_employers
    expect_employers-ends [] c = inl (c, refl)
    expect_employers-ends (e ∷ es) c = elim (Option-cases (api.expected_finalizers c)) [
      | inl absent ↦ inr (rw absent, absent, λ h. cc h)
      | inr (m, there) ↦
          let m' = insert (employer_key e) (lifecycle_finalizer api e.name) m in
          elim (expect_employers-ends es (api.set_expected_finalizers c m')) [
            | inl (d, ended) ↦ inl (d, rw there ended)
            | inr (panicked, absent, _) ↦ cc (absent, laws.expected-set c m')
          ]
    ]

    with_pod : Outcome Pod → Outcome (Option Pod)
    with_pod (ok p) = ok (some p)
    with_pod (err e) = err e
    with_pod panic = panic

    marshal_into-IsPrepared :
        (pod : Pod) (es : List Employer) (old c : api.Conditions)
        → expect_employers api es old ≡ ok c
        → IsPrepared pod es old (with_pod (marshal_into api pod c))
    unfolding with_pod
    marshal_into-IsPrepared pod es old c h = elim (sum-cases (api.marshal c)) [
      | inl (e, failed) ↦ rw (failed, IsPrepared, with_pod) (c, failed)
      | inr (text, written) ↦
          let (d, back) = laws.unmarshal-marshal c text written in
          rw (written, IsPrepared, with_pod)
            (
              text,
              refl,
              laws.marshal_ne_empty c text written,
              (
                d,
                back,
                λ key.
                    laws.get-unmarshal-marshal c d text key written back
                    ∙ entry-expect_employers es old c key h,
              ),
            )
    ]

    prepare_pod-IsPrepared :
        (pod : Pod) (es : List Employer) (old : api.Conditions)
        → present_conditions api pod ≡ ok old
        → IsPrepared pod es old (with_pod (prepare_pod api pod es))
    unfolding prepare_pod with_pod
    prepare_pod-IsPrepared pod es old h = elim (expect_employers-ends es old) [
      | inl (c, ended) ↦ rw (h, ended) (marshal_into-IsPrepared pod es old c ended)
      | inr (panicked, absent, some_employer) ↦ rw (h, panicked) (absent, some_employer)
    ]

    module _ {W : Type 0} (adapter : WebhookAdapter W) where
      -- If a pod is created, the adapter gives employers and the pod's annotation, if it has one, can
      -- be unmarshalled, then Mutating ends in one of three ways. It sets the annotation, and nothing
      -- else of the pod, to a text that is not empty and that lists each employer with the finalizer
      -- of its name and otherwise what the annotation listed before; or json.Marshal has failed, and
      -- its error is returned; or it panics, which happens only if there is an employer and the old
      -- annotation has set the map to nil.
      pub mutating-IsPrepared :
          (pod : Pod) (w w' : W) (es : List Employer) (old : api.Conditions)
          → adapter.get_employers_by_employee pod w ≡ (ok es, w')
          → present_conditions api pod ≡ ok old
          → IsPrepared pod es old (mutating api adapter (some pod) create w).0
      unfolding mutating ◌>>=◌ with_pod
      mutating-IsPrepared pod w w' es old given h =
          rw given (ended (prepare_pod api pod es) (prepare_pod-IsPrepared pod es old h))
        where
          ended :
              (r : Outcome Pod)
              → IsPrepared pod es old (with_pod r)
              → IsPrepared pod es old ((lift r >>= λ p. done (some p)) w').0
          ended (ok p) h = h
          ended (err e) h = h
          ended panic h = h
