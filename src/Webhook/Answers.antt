-- ===== src/Webhook/Answers.antt =====
-- What `Handle` answers.
use mathlib.Core.Path.{◌∙◌, sym, subst}
use resourceconsist.Base.{
  ◌≡◌, refl, ap, Bool, true, false, Option, none, some, List, arith, GoError, ◌==◌, string_eq,
  Outcome, ok, err, panic, ◌⊎◌, inl, inr, sum-cases, ◌||◌, not, Bool-cases,
}
use resourceconsist.Controller.Types.{Pod}
use resourceconsist.Controller.Client.{Employer}
use resourceconsist.Controller.KubeApi.{KubeApi, IsKubeApi}
use resourceconsist.Webhook.{
  Operation, create, other_operation, WebhookAdapter, AdmissionRequest, AdmissionResponse, errored,
  patch_response_from_raw, PodCodec, is_dry_run, present_conditions, answer, handle_decoded,
  mutating, handle,
}
use resourceconsist.Webhook.Prepared.{IsPrepared, mutating-IsPrepared}

abbrev is_create : Operation → Bool
is_create create = true
is_create (other_operation _) = false

module _ (api : KubeApi) (codec : PodCodec) where
  -- The answer to the creation of a pod: a patch from the object of the request to the JSON of a pod
  -- that lists the employers, an internal error, or none at all where Mutating panics.
  abbrev pub IsPreparedAnswer :
      AdmissionRequest → Pod → List Employer → api.Conditions → Outcome AdmissionResponse → Type 0
  IsPreparedAnswer req pod es old (ok (patch_response_from_raw raw text)) =
      (raw ≡ req.object)
      × ((p : Pod) × (codec.marshal_pod (some p) ≡ inr text)
          × IsPrepared api pod es old (ok (some p)))
  IsPreparedAnswer req pod es old (ok (errored code e)) = code ≡ 500
  IsPreparedAnswer req pod es old panic = IsPrepared api pod es old panic
  IsPreparedAnswer req pod es old _ = ⊥

  module _ {W : Type 0} where
    handle-decoded :
        (adapter : WebhookAdapter W) (req : AdmissionRequest) (pod : Pod) (w : W)
        → is_dry_run req.dry_run ≡ false
        → req.kind ≡ "Pod"
        → codec.decode req ≡ inr pod
        → handle api adapter codec req w
          ≡ answer api adapter codec req (mutating api adapter (some pod) req.operation w)
    unfolding handle
    handle-decoded adapter req pod w real is_pod decoded = ground (arith, real, is_pod, decoded)

    answer-IsPreparedAnswer :
        (adapter : WebhookAdapter W) (req : AdmissionRequest) (pod : Pod) (es : List Employer)
        (old : api.Conditions) (r : Outcome (Option Pod) × W)
        → IsPrepared api pod es old r.0
        → IsPreparedAnswer req pod es old (answer api adapter codec req r).0
    answer-IsPreparedAnswer adapter req pod es old (ok none, w) h = absurd h
    answer-IsPreparedAnswer adapter req pod es old (ok (some p), w) h =
        elim (sum-cases (codec.marshal_pod (some p))) [
          | inl (e, failed) ↦ rw (failed, IsPreparedAnswer) refl
          | inr (text, written) ↦ rw (written, IsPreparedAnswer) (refl, (p, written, h))
        ]
    answer-IsPreparedAnswer adapter req pod es old (err e, w) h = refl
    answer-IsPreparedAnswer adapter req pod es old (panic, w) h = h

    -- The creation of a pod that can be decoded, where it is no dry run, the adapter gives employers
    -- and the annotation, if the pod has one, can be unmarshalled: Handle answers with a patch from the
    -- object of the request to the JSON of a pod, which is the decoded pod with each employer listed in
    -- its annotation, or with an internal error; or it panics, and then there is an employer and the
    -- annotation has set the map to nil.
    pub handle-IsPreparedAnswer :
        IsKubeApi api
        → (adapter : WebhookAdapter W) (req : AdmissionRequest) (pod : Pod) (w w' : W)
          (es : List Employer) (old : api.Conditions)
        → is_dry_run req.dry_run ≡ false
        → req.kind ≡ "Pod"
        → req.operation ≡ create
        → codec.decode req ≡ inr pod
        → adapter.get_employers_by_employee pod w ≡ (ok es, w')
        → present_conditions api pod ≡ ok old
        → IsPreparedAnswer req pod es old (handle api adapter codec req w).0
    handle-IsPreparedAnswer laws adapter req pod w w' es old real is_pod creates decoded given h =
        subst (λ r. IsPreparedAnswer req pod es old r.0)
          (sym (
            handle-decoded adapter req pod w real is_pod decoded
            ∙ ap (λ o. answer api adapter codec req (mutating api adapter (some pod) o w)) creates))
          (answer-IsPreparedAnswer adapter req pod es old (mutating api adapter (some pod) create w)
            (mutating-IsPrepared api laws adapter pod w w' es old given h))

    decoded-unasked :
        (a b : WebhookAdapter W) (req : AdmissionRequest) (w : W) (r : GoError ⊎ Pod)
        (o : Operation)
        → req.operation ≡ o
        → is_create o ≡ false
        → (handle_decoded api a codec req r w ≡ handle_decoded api b codec req r w)
          × ((handle_decoded api a codec req r w).1 ≡ w)
    unfolding mutating
    decoded-unasked a b req w (inl e) o h other = (refl, refl)
    decoded-unasked a b req w (inr pod) create h other = cc
    decoded-unasked a b req w (inr pod) (other_operation name) h other = rw h (refl, refl)

    -- A dry run, an object that is no pod and an operation that is no creation are answered without the
    -- adapter: any two adapters give the same answer, and the state stays as it is.
    pub handle-unasked :
        (a b : WebhookAdapter W) (req : AdmissionRequest) (w : W)
        → (is_dry_run req.dry_run || (not (req.kind == "Pod") || not (is_create req.operation)))
          ≡ true
        → (handle api a codec req w ≡ handle api b codec req w) × ((handle api a codec req w).1 ≡ w)
    unfolding handle
    handle-unasked a b req w h = elim (Bool-cases (is_dry_run req.dry_run)) [
      | inl dry ↦ rw dry (refl, refl)
      | inr real ↦ elim (Bool-cases (req.kind == "Pod")) [
        | inr other ↦ rw (real, other) (refl, refl)
        | inl is_pod ↦
            rw (real, is_pod)
              (decoded-unasked a b req w (codec.decode req) req.operation refl
                (ground (arith, h, real, is_pod)))
      ]
    ]
