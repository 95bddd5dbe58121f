-- ===== src/Webhook.antt =====
-- `Handle` and `Mutating` of pkg/frame/webhook/resourceconsist_webhook.go: a pod that is created gets
-- an annotation that lists the employers that it is to be an employee of.
pub mod Prepared
pub mod Answers
pub mod Agrees
pub mod Rounds
pub mod CertApi
pub mod Certs
mod Tests
use resourceconsist.Base.{
  ℕ, String, Bool, true, false, Option, none, some, List, [], ◌∷◌, if◌then◌else◌, GoError, ◌==◌,
  string_eq, Outcome, ok, err, panic, ◌⊎◌, inl, inr, ◌>>=◌ as and_then,
}
use resourceconsist.Base.GoMap.{GoMap, insert}
use resourceconsist.Base.Steps.{Step, ◌>>=◌, lift, done}
use resourceconsist.Controller.Types.{Pod}
use resourceconsist.Controller.Client.{Employer, annotate}
use resourceconsist.Controller.KubeApi.{KubeApi, entries, annotation}
use resourceconsist.Controller.ExpectedPatch.{annotated}
use resourceconsist.Controller.ExpectedFinalizer.{employer_key, lifecycle_finalizer}

-- `admissionv1.Operation`: the code tells `Create` apart.
pub data Operation : Type 0 where
  create : Operation
  other_operation : String → Operation

-- `WebhookAdapter`, over the state that its client reads and writes. It does not write to the pod.
pub record WebhookAdapter (W : Type 0) : Type 0 where
  pub name : String
  pub get_employers_by_employee : Pod → Step W (List Employer)

-- What is used of `admission.Request`; `object` is `Object.Raw`, a `DryRun` that is nil is `none`.
pub record AdmissionRequest : Type 0 where
  pub dry_run : Option Bool
  pub kind : String
  pub operation : Operation
  pub object : String

-- `admission.Allowed`, `admission.Patched`, `admission.Errored` and `admission.PatchResponseFromRaw`.
pub data AdmissionResponse : Type 0 where
  allowed : String → AdmissionResponse
  patched : String → AdmissionResponse
  errored : ℕ → GoError → AdmissionResponse
  patch_response_from_raw : String → String → AdmissionResponse

-- `Decode` of the decoder, and `json.Marshal` of a pointer to a pod.
pub record PodCodec : Type 0 where
  pub decode : AdmissionRequest → GoError ⊎ Pod
  pub marshal_pod : Option Pod → GoError ⊎ String

abbrev pub from_result {ℓ} : {A : Type ℓ} → GoError ⊎ A → Outcome A
from_result (inl e) = err e
from_result (inr a) = ok a

abbrev pub is_dry_run : Option Bool → Bool
is_dry_run none = false
is_dry_run (some b) = b

module _ (api : KubeApi) where
  -- `v1alpha1.PodAvailableConditions{ExpectedFinalizers: map[string]string{}}`
  abbrev pub fresh_conditions : api.Conditions
  fresh_conditions = api.set_expected_finalizers api.zero_value []

  -- What the annotation that the pod already has holds, unmarshalled into fresh conditions.
  pub present_conditions : Pod → Outcome api.Conditions
  present_conditions pod =
      let text = annotation api.pod_available_conditions_annotation pod.annotations in
      if text == "" then ok fresh_conditions else from_result (api.unmarshal text fresh_conditions)

  -- `availableExpectedFlzs.ExpectedFinalizers[expectedFlzKey] = expectedFlz`, which panics where the
  -- map is nil.
  abbrev pub expect_in : Option (GoMap String) → Employer → api.Conditions → Outcome api.Conditions
  expect_in none e c = panic
  expect_in (some m) e c =
      ok
        (api.set_expected_finalizers c (insert (employer_key e) (lifecycle_finalizer api e.name) m))

  -- The loop over the employers.
  pub expect_employers : List Employer → api.Conditions → Outcome api.Conditions
  expect_employers [] c = ok c
  expect_employers (e ∷ es) c =
      and_then (expect_in (api.expected_finalizers c) e c) (expect_employers es)

  abbrev pub marshal_into : Pod → api.Conditions → Outcome Pod
  marshal_into pod c = elim (api.marshal c) [
    | inl e ↦ err e
    | inr text ↦ ok (annotated api pod text)
  ]

  -- `Mutating`, after the adapter has given the employers.
  pub prepare_pod : Pod → List Employer → Outcome Pod
  unfolding present_conditions expect_employers
  prepare_pod pod employers =
      and_then (and_then (present_conditions pod) (expect_employers employers)) (marshal_into pod)

  module _ {W : Type 0} (adapter : WebhookAdapter W) where
    -- The pod as it is afterwards; a pod that is nil is `none`.
    unfoldable pub mutating : Option Pod → Operation → Step W (Option Pod)
    unfolding ◌>>=◌ prepare_pod
    mutating none operation = done none
    mutating (some pod) (other_operation _) = done (some pod)
    mutating (some pod) create = do
      employers ← adapter.get_employers_by_employee pod
      prepared ← lift (prepare_pod pod employers)
      done (some prepared)

    module _ (codec : PodCodec) where
      abbrev pub respond : AdmissionRequest → Option Pod → AdmissionResponse
      respond req pod = elim (codec.marshal_pod pod) [
        | inl e ↦ errored 500 e
        | inr marshalled ↦ patch_response_from_raw req.object marshalled
      ]

      abbrev pub answer :
          AdmissionRequest → Outcome (Option Pod) × W → Outcome AdmissionResponse × W
      answer req (ok pod, w) = (ok (respond req pod), w)
      answer req (err e, w) = (ok (errored 500 e), w)
      answer req (panic, w) = (panic, w)

      abbrev pub handle_decoded : AdmissionRequest → GoError ⊎ Pod → Step W AdmissionResponse
      handle_decoded req (inl e) w = (ok (errored 400 e), w)
      handle_decoded req (inr pod) w = answer req (mutating (some pod) req.operation w)

      unfoldable pub handle : AdmissionRequest → Step W AdmissionResponse
      unfolding mutating
      handle req =
          if is_dry_run req.dry_run
          then done (allowed "dry run")
          else if req.kind == "Pod"
          then handle_decoded req (codec.decode req)
          else done (patched "NoMutating")
