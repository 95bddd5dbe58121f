-- ===== src/Webhook/Tests.antt =====
-- The creation of a pod that one service selects, and the same pod in the controller.
use resourceconsist.Base.{
  String, ◌≡◌, ◌≢◌, refl, Bool, true, false, Option, none, some, [], ◌∷◌, ok, ◌⊎◌, inl, inr,
  GoError, string_eq, ◌==◌, ◌||◌, not,
}
use resourceconsist.Base.GoMap.{get, insert, erase}
use resourceconsist.Base.Steps.{◌>>=◌}
use resourceconsist.Controller.Types.{Pod}
use resourceconsist.Controller.Client.{Employer, found, annotate, route, employer_context}
use resourceconsist.Controller.Client.Memory.{Memory, memory, memory-IsPodPatch, context_eq}
use resourceconsist.Controller.KubeApi.{KubeApi}
use resourceconsist.Controller.KubeApi.Table.{table_api, table_api-IsKubeApi}
use resourceconsist.Controller.ExpectedPatch.{
  annotated, add_expected_finalizer, delete_expected_finalizer,
}
use resourceconsist.Webhook.Rounds.{mutating-delete_rounds}
use resourceconsist.Controller.ExpectedPatch.Listing.{listing}
use resourceconsist.Controller.ExpectedFinalizer.{employer_key, lifecycle_finalizer}
use resourceconsist.Utils.Names.{generate_lifecycle_finalizer_key, generate_lifecycle_finalizer}
use resourceconsist.Webhook.{
  create, other_operation, WebhookAdapter, AdmissionRequest, PodCodec, fresh_conditions,
  present_conditions, expect_employers, mutating, handle,
}
use resourceconsist.Webhook.Prepared.{IsPrepared, mutating-IsPrepared}
use resourceconsist.Webhook.Agrees.{mutating-add_kept, mutating-agrees_add}
use resourceconsist.Webhook.Answers.{IsPreparedAnswer, handle-IsPreparedAnswer, handle-unasked}

abbrev key : String
key = "Service/ns/web"

abbrev flz : String
flz = "prot.podopslifecycle.kusionstack.io/9705eb7ac2c98403"

abbrev api : KubeApi
api = table_api key flz

abbrev employer : Employer
employer = record {
  kind = "Service";
  meta = record {
    name = "web";
    namespace = "ns";
    labels = none;
    annotations = none;
    finalizers = [];
    deleting = false;
  };
  selector = [];
}

abbrev pod : Pod
pod = record {
  meta = record {
    name = "a";
    namespace = "ns";
    labels = none;
    annotations = none;
    finalizers = [];
    deleting = false;
  };
  conditions = [];
  pod_ip = "";
  pod_ips = [];
}

-- An adapter that gives one employer for every pod, and one that gives none.
abbrev one_employer : WebhookAdapter Memory
one_employer = record { name = "one"; get_employers_by_employee = λ p w. (ok (employer ∷ []), w) }

abbrev no_employer : WebhookAdapter Memory
no_employer = record { name = "none"; get_employers_by_employee = λ p w. (ok [], w) }

abbrev prepared : Pod
prepared = annotate pod ((api.pod_available_conditions_annotation, "{one}") ∷ [])

abbrev holding : Pod → Memory
holding p = record { pods = λ c ns n. some p; employers = λ c ns n. none }

absent : present_conditions api pod ≡ ok (fresh_conditions api)
unfolding present_conditions string_eq get
absent = refl

prepares : (mutating api one_employer (some pod) create (holding pod)).0 ≡ ok (some prepared)
unfolding mutating present_conditions expect_employers ◌>>=◌ string_eq get insert
    generate_lifecycle_finalizer_key generate_lifecycle_finalizer
prepares = refl

not_local : ◌≢◌ {A = Option Bool} none (some false)
not_local h = cc h

mutating-IsPrepared_example :
    IsPrepared api pod
      (employer ∷ [])
      (fresh_conditions api)
      (mutating api one_employer (some pod) create (holding pod)).0
mutating-IsPrepared_example =
    mutating-IsPrepared api (table_api-IsKubeApi key flz) one_employer pod (holding pod)
      (holding pod) (employer ∷ []) (fresh_conditions api) refl absent

one_name :
    (e f : Employer)
    → (employer ≡ e) ⊎ ⊥
    → (employer ≡ f) ⊎ ⊥
    → employer_key f ≡ employer_key e
    → f.name ≡ e.name
one_name e f (inl p) (inl q) h = cc (p, q)
one_name e f (inr p) q h = absurd p
one_name e f p (inr q) h = absurd q

mutating-add_kept_example :
    add_expected_finalizer memory api none "ns"
      (employer_key employer)
      (lifecycle_finalizer api "web")
      "a"
      (holding prepared)
    ≡ (none, true, holding prepared)
mutating-add_kept_example =
    mutating-add_kept api (table_api-IsKubeApi key flz) one_employer memory none not_local pod
      prepared (holding pod) (holding pod) (employer ∷ []) (fresh_conditions api) employer "a"
      (holding prepared) refl absent prepares (inl refl) one_name refl refl

abbrev patched_pod : Option GoError × Bool × Memory
patched_pod =
    add_expected_finalizer memory api none "ns" (employer_key employer)
      (lifecycle_finalizer api "web") "a" (holding pod)

is_patched : patched_pod.1 ≡ true
unfolding add_expected_finalizer get route employer_context string_eq insert context_eq
    generate_lifecycle_finalizer_key generate_lifecycle_finalizer
is_patched = refl

mutating-agrees_add_example :
    (q : Pod) × (memory.get_pod (employer_context none) "ns" "a" patched_pod.2 ≡ found q)
    × ((key : String) → listing api key prepared ≡ listing api key q)
    × ((text : String) × (prepared ≡ annotated api pod text))
    × ((q ≡ pod) ⊎ ((text : String) × (q ≡ annotated api pod text)))
mutating-agrees_add_example =
    mutating-agrees_add api (table_api-IsKubeApi key flz) one_employer memory none not_local
      memory-IsPodPatch pod prepared (holding pod) (holding pod) (fresh_conditions api) employer "a"
      (holding pod) refl absent prepares refl is_patched

abbrev codec : PodCodec
codec = record { decode = λ req. inr pod; marshal_pod = λ p. inr "{pod}" }

abbrev creation : AdmissionRequest
creation = record { dry_run = none; kind = "Pod"; operation = create; object = "{}" }

handle-IsPreparedAnswer_example :
    IsPreparedAnswer api codec creation pod
      (employer ∷ [])
      (fresh_conditions api)
      (handle api one_employer codec creation (holding pod)).0
handle-IsPreparedAnswer_example =
    handle-IsPreparedAnswer api codec (table_api-IsKubeApi key flz) one_employer creation pod
      (holding pod) (holding pod) (employer ∷ []) (fresh_conditions api) refl refl refl refl refl
      absent

abbrev deletion : AdmissionRequest
deletion = record creation { operation = other_operation "DELETE" }

is_unasked : (false || (not (deletion.kind == "Pod") || true)) ≡ true
unfolding string_eq
is_unasked = refl

handle-unasked_example :
    (handle api one_employer codec deletion (holding pod)
      ≡ handle api no_employer codec deletion (holding pod))
    × ((handle api one_employer codec deletion (holding pod)).1 ≡ holding pod)
handle-unasked_example =
    handle-unasked api codec one_employer no_employer deletion (holding pod) is_unasked

abbrev deleted_pod : Option GoError × Bool × Memory
deleted_pod =
    delete_expected_finalizer memory api none "ns" (employer_key employer)
      (lifecycle_finalizer api "web") "a" (holding prepared)

is_deleted : deleted_pod.1 ≡ true
unfolding delete_expected_finalizer get erase route employer_context string_eq insert context_eq
    generate_lifecycle_finalizer_key generate_lifecycle_finalizer
is_deleted = refl

unlisted : listing api (employer_key employer) pod ≡ none
unfolding get string_eq
unlisted = refl

mutating-delete_rounds_example :
    (q : Pod) × (memory.get_pod (employer_context none) "ns" "a" deleted_pod.2 ≡ found q)
    × ((key : String) → listing api key q ≡ listing api key pod)
mutating-delete_rounds_example =
    mutating-delete_rounds api (table_api-IsKubeApi key flz) one_employer memory memory-IsPodPatch
      none not_local pod prepared (holding pod) (holding pod) (fresh_conditions api) employer "a"
      (holding prepared) refl absent prepares unlisted refl is_deleted
