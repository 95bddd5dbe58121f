-- ===== src/Controller/ExpectedFinalizer/Tests.antt =====
-- Runs of `ensureExpectedFinalizer` over pods in memory.
use mathlib.Core.List.Perm
use resourceconsist.Base.{
  ℕ, String, ◌≡◌, ◌≢◌, refl, Bool, true, false, Option, none, some, List, [], ◌∷◌, contains,
  string_eq, arith, ◌==◌, ◌||◌, if◌then◌else◌, Outcome, ok, inl, inr, Bool-cases, GoError,
}
use resourceconsist.Base.GoMap.{get, insert, erase}
use resourceconsist.Base.Text.{split, join}
use resourceconsist.Base.Text.Rounds.{CommaFree}
use mathlib.Core.Path.{subst}
use resourceconsist.Controller.Client.Named.{
  named_memory, named_memory-IsPodStore, named_memory-IsPodPatch,
}
use resourceconsist.Controller.Finalizer.Effect.{pod_at}
use resourceconsist.Controller.ExpectedPatch.Batches.{Lists}
use resourceconsist.Controller.ExpectedFinalizer.Covers.{ensure_need_record-Covers}
use resourceconsist.Controller.Types.{Pod, AdapterOptions}
use resourceconsist.Controller.Client.{Employer, found, failed, route, employer_context}
use resourceconsist.Controller.Client.Memory.{
  Memory, memory, memory-IsPodStore, memory-IsPodPatch, context_eq, not_found,
}
use resourceconsist.Controller.KubeApi.{KubeApi}
use resourceconsist.Controller.KubeApi.Table.{table_api, table_api-IsKubeApi}
use resourceconsist.Controller.ExpectedPatch.{
  patch_add_pod_expected_finalizer, patch_delete_pod_expected_finalizer,
}
use resourceconsist.Controller.ExpectedFinalizer.{
  expected_finalizer_added_anno_key, added_names, patch_pod_expected_finalizer, store_added_names,
  delete_recorded, update_recorded, ensure_expected_finalizer_need_record, ensure_selected,
  ensure_from_names, ensure_expected_finalizer,
}
use resourceconsist.Controller.ExpectedFinalizer.Deleted.{
  Follows, LacksKey, ensure_expected_finalizer-lacks,
}
use resourceconsist.Controller.ExpectedFinalizer.Local.{ensure_need_record_local}
use resourceconsist.Utils.Batch.{slow_start_batch}
use resourceconsist.Utils.Names.{generate_lifecycle_finalizer_key, generate_lifecycle_finalizer}

abbrev key : String
key = "Service/ns/web"

abbrev flz : String
flz = "prot.podopslifecycle.kusionstack.io/9705eb7ac2c98403"

abbrev api : KubeApi
api = table_api key flz

abbrev employer : Bool → String → Employer
employer deleting recorded = record {
  kind = "Service";
  meta = record {
    name = "web";
    namespace = "ns";
    labels = none;
    annotations = some ((expected_finalizer_added_anno_key, recorded) ∷ []);
    finalizers = [];
    deleting = deleting;
  };
  selector = [];
}

-- A pod that lists the employer among its expected finalizers.
abbrev pod : String → Pod
pod name = record {
  meta = record {
    name = name;
    namespace = "ns";
    labels = none;
    annotations = some ((api.pod_available_conditions_annotation, "{one}") ∷ []);
    finalizers = [];
    deleting = false;
  };
  conditions = [];
  pod_ip = "";
  pod_ips = [];
}

abbrev holding : Employer → Memory
holding e = record { pods = λ c ns n. some (pod n); employers = λ c ns n. some e }

abbrev in_order : List ℕ → List ℕ
in_order is = is

abbrev options : AdapterOptions
options = record {
  lifecycle = some (record {
    follow_pod_ops_life_cycle = true;
    need_record_lifecycle_finalizer_condition = false;
  });
  new_employee_is_pod = none;
  multi_cluster = none;
  need_record_expected_finalizer_condition = some true;
}

abbrev no_names : Employer → Memory → Outcome (List String) × Memory
no_names e w = (ok [], w)

not_local : ◌≢◌ {A = Option Bool} none (some false)
not_local h = cc h

follows :
    Follows memory memory-IsPodStore memory-IsPodPatch api
      (table_api-IsKubeApi key flz)
      none
      not_local
      in_order
      Perm.refl
      options
follows = record {
  lifecycle = record {
    follow_pod_ops_life_cycle = true;
    need_record_lifecycle_finalizer_condition = false;
  };
  implemented = refl;
  follows = refl;
  are_pods = λ h. cc h;
}

-- The employer is being deleted; the pod "a" is recorded.
abbrev dying : Employer
dying = employer true "a"

abbrev ensured : Outcome Bool × (Employer × Memory)
ensured = ensure_expected_finalizer memory api none in_order options no_names dying (holding dying)

ensured_well : ensured.0 ≡ ok true
unfolding ensure_expected_finalizer ensure_from_names ensure_selected
    ensure_expected_finalizer_need_record delete_recorded added_names patch_pod_expected_finalizer
    patch_add_pod_expected_finalizer patch_delete_pod_expected_finalizer store_added_names
    slow_start_batch string_eq context_eq route split join get insert erase
    generate_lifecycle_finalizer_key generate_lifecycle_finalizer employer_context
ensured_well = refl

a_recorded : contains (added_names dying) "a" ≡ true
unfolding added_names split string_eq get
a_recorded = refl

ensure_expected_finalizer-lacks_example :
    LacksKey memory memory-IsPodStore memory-IsPodPatch api
      (table_api-IsKubeApi key flz)
      none
      not_local
      in_order
      Perm.refl
      dying
      "a"
      ensured.1.1
ensure_expected_finalizer-lacks_example =
    ensure_expected_finalizer-lacks memory memory-IsPodStore memory-IsPodPatch api
      (table_api-IsKubeApi key flz) none not_local in_order Perm.refl options no_names dying
      (holding dying) (holding dying) [] follows refl refl ensured_well "a" (inr (refl, a_recorded))

-- With employees in local clusters and no name recorded.
abbrev unrecorded : Employer
unrecorded = employer true ""

no_name_recorded : contains (added_names unrecorded) "" ≡ true
unfolding added_names split string_eq get
no_name_recorded = refl

ensure_need_record_local_example :
    let r =
      ensure_expected_finalizer_need_record memory api
        (some false)
        in_order
        unrecorded
        []
        (holding unrecorded) in
    (contains (added_names r.2) "" ≡ true) × (true ≡ true → r.0 ≡ false)
ensure_need_record_local_example =
    ensure_need_record_local memory api (table_api-IsKubeApi key flz) in_order Perm.refl unrecorded
      [] (holding unrecorded) no_name_recorded

-- Pods have the names "a" and "b".
abbrev is_name : String → Bool
is_name n = n == "a" || n == "b"

unnamed_absent :
    (ns n : String) (w : Memory)
    → is_name n ≡ false
    → pod_at (named_memory is_name) none ns n w ≡ failed not_found
unfolding route
unnamed_absent ns n w h = rw h

CommaFree-is_name : (n : String) → is_name n ≡ true → CommaFree n
unfolding split
CommaFree-is_name n h = elim (string_eq.dec "a" n) [
  | yes at_a ↦ subst CommaFree at_a refl
  | no a ↦ let at_b : "b" ≡ n = ground (arith, h, a) in subst CommaFree at_b refl
]

CommaFree-pod_at :
    (ns n : String) (w : Memory) (p : Pod)
    → pod_at (named_memory is_name) none ns n w ≡ found p
    → CommaFree n
CommaFree-pod_at ns n w p h = elim (Bool-cases (is_name n)) [
  | inl named ↦ CommaFree-is_name n named
  | inr unnamed ↦ cc (unnamed_absent ns n w unnamed, h)
]

-- Pod "a" is recorded, and is not selected any more; pod "b" is selected.
abbrev alive : Employer
alive = employer false "a"

-- A pod that lists nothing.
abbrev bare : String → Pod
bare name = record (pod name) { meta = record (pod name).meta { annotations = none } }

abbrev both : Memory
both = record {
  pods = λ c ns n. if n == "a" then some (pod n) else some (bare n);
  employers = λ c ns n. some alive;
}

others_unlisted :
    (n : String) (p : Pod)
    → (n == "a") ≡ false
    → pod_at (named_memory is_name) none "ns" n both ≡ found p
    → p.annotations ≡ none
unfolding route
others_unlisted n p h at = ground (arith, h, at)

alive_records_a : contains (added_names alive) "a" ≡ true
unfolding added_names split string_eq get
alive_records_a = refl

a_recorded_at : (n : String) → (n == "a") ≡ true → contains (added_names alive) n ≡ true
a_recorded_at n h =
    let same : "a" ≡ n = ground (arith, h) in
    subst (λ m. contains (added_names alive) m ≡ true) same alive_records_a

a_covers :
    (n : String)
    → Lists api key (named_memory is_name) none "ns" n both
    → contains (added_names alive) n ≡ true
unfolding string_eq get
a_covers n (p, at, listed) = elim (Bool-cases (n == "a")) [
  | inl at_a ↦ a_recorded_at n at_a
  | inr other ↦ cc (rw (others_unlisted n p other at) at listed)
]

abbrev updated : Bool × Option GoError × Employer × Memory
updated =
    ensure_expected_finalizer_need_record (named_memory is_name) api none in_order alive ("b" ∷ [])
      both

-- Pod "b" has been added.
b_listed : Lists api key (named_memory is_name) none "ns" "b" updated.3
unfolding ensure_expected_finalizer_need_record update_recorded added_names
    patch_pod_expected_finalizer patch_add_pod_expected_finalizer
    patch_delete_pod_expected_finalizer store_added_names slow_start_batch string_eq context_eq
    route split join get insert erase generate_lifecycle_finalizer_key generate_lifecycle_finalizer
    employer_context
b_listed = (_, refl, refl)

ensure_need_record-Covers_example : contains (added_names updated.2) "b" ≡ true
unfolding generate_lifecycle_finalizer_key
ensure_need_record-Covers_example =
    ensure_need_record-Covers (named_memory is_name) (named_memory-IsPodStore is_name)
      (named_memory-IsPodPatch is_name) api (table_api-IsKubeApi key flz) none not_local in_order
      Perm.refl CommaFree-pod_at alive ("b" ∷ []) both a_covers "b" b_listed
