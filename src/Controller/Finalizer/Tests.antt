-- ===== src/Controller/Finalizer/Tests.antt =====
-- Runs of `ensureLifecycleFinalizer` over pods in memory.
use mathlib.Core.List.Perm
use resourceconsist.Base.{
  ℕ, String, ◌≡◌, ◌≢◌, refl, Bool, true, false, Option, none, some, List, [], ◌∷◌, contains,
  string_eq, arith, GoError, if◌then◌else◌, ◌==◌,
}
use resourceconsist.Controller.Types.{Pod}
use resourceconsist.Controller.Client.{
  Client, IsPodStore, failed, fed, cluster, route, employer_context,
}
use resourceconsist.Controller.Client.Memory.{
  Memory, memory, memory-IsPodStore, memory-ReadsOwn, not_found, context_eq,
}
use resourceconsist.Controller.Finalizer.{ensure_lifecycle_finalizer}
use resourceconsist.Controller.Finalizer.Effect.{pod_at, HasFlz}
use resourceconsist.Controller.Finalizer.Adding.{ensure_lifecycle_finalizer-adds}
use resourceconsist.Controller.Finalizer.Single.{IsEnsured, ensure_lifecycle_finalizer-IsEnsured}
use resourceconsist.Controller.Finalizer.Local.{IsMissingInFed, ensure_lifecycle_finalizer_local}
use resourceconsist.Utils.Batch.{slow_start_batch}
use mathlib.Core.Path.{subst}

abbrev pod : String → List String → Pod
pod name finalizers = record {
  meta = record {
    name = name;
    namespace = "ns";
    labels = none;
    annotations = none;
    finalizers = finalizers;
    deleting = false;
  };
  conditions = [];
  pod_ip = "";
  pod_ips = [];
}

abbrev named : String → Option Pod
named n =
    if n == "a"
    then some (pod "a" ("other" ∷ []))
    else if n == "b"
    then some (pod "b" ("flz" ∷ "other" ∷ []))
    else none

-- Every cluster but the fed one holds two pods.
abbrev start : Memory
start = record { pods = λ c ns n. elim c [ fed ↦ none | _ ↦ named n ]; employers = λ c ns n. none }

abbrev in_order : List ℕ → List ℕ
in_order is = is

not_local : ◌≢◌ {A = Option Bool} none (some false)
not_local h = cc h

abbrev ensured : Option GoError × Memory
ensured =
    ensure_lifecycle_finalizer memory none "ns" "flz" in_order ("a" ∷ []) ("b" ∷ "gone" ∷ []) start

no_error : ensured.0 ≡ none
unfolding ensure_lifecycle_finalizer slow_start_batch string_eq context_eq route
no_error = refl

ensure_lifecycle_finalizer-IsEnsured_example :
    IsEnsured memory memory-IsPodStore none "ns" "flz" not_local in_order Perm.refl memory-ReadsOwn
      ("a" ∷ [])
      ("b" ∷ "gone" ∷ [])
      ensured.1
ensure_lifecycle_finalizer-IsEnsured_example =
    ensure_lifecycle_finalizer-IsEnsured memory memory-IsPodStore none "ns" "flz" not_local in_order
      Perm.refl memory-ReadsOwn ("a" ∷ []) ("b" ∷ "gone" ∷ []) start no_error

-- Every call of the second batch finds in `err` that a pod is missing.
abbrev racing : Client
racing = record memory { err_read = λ r name e w. some not_found }

-- The same run, where every call of the second batch finds that a pod is missing.
abbrev raced_ensured : Option GoError × Memory
raced_ensured =
    ensure_lifecycle_finalizer racing none "ns" "flz" in_order ("a" ∷ []) ("b" ∷ "gone" ∷ []) start

raced_no_error : raced_ensured.0 ≡ none
unfolding ensure_lifecycle_finalizer slow_start_batch string_eq context_eq route
raced_no_error = refl

racing-IsPodStore : IsPodStore racing
racing-IsPodStore = record {
  get-named = memory-IsPodStore.get-named;
  get-update_same = memory-IsPodStore.get-update_same;
  get-update_other = memory-IsPodStore.get-update_other;
  get-update_failed = memory-IsPodStore.get-update_failed;
}

listed_a : contains {A = String} ("a" ∷ []) "a" ≡ true
listed_a = ground arith

kept_a : contains {A = String} ("b" ∷ "gone" ∷ []) "a" ≡ false
unfolding string_eq
kept_a = refl

ensure_lifecycle_finalizer-adds_example :
    HasFlz racing racing-IsPodStore none "ns" "flz" not_local true "a" raced_ensured.1
ensure_lifecycle_finalizer-adds_example =
    ensure_lifecycle_finalizer-adds racing racing-IsPodStore none "ns" "flz" not_local in_order
      Perm.refl ("a" ∷ []) ("b" ∷ "gone" ∷ []) start "a" raced_no_error listed_a kept_a

routed_b : route (some false) "b#east" ≡ some (cluster "east", "b")
unfolding route
routed_b = refl

-- Pod b is in the cluster "east", and has the finalizer.
missing_b :
    (name : String)
    → contains ("b#east" ∷ []) name ≡ true
    → IsMissingInFed memory memory-ReadsOwn "ns" "flz" name start
missing_b name h =
    subst (λ n. IsMissingInFed memory memory-ReadsOwn "ns" "flz" n start) (ground arith) b_in_fed
  where
    b_in_fed : IsMissingInFed memory memory-ReadsOwn "ns" "flz" "b#east" start
    b_in_fed = record {
      context = cluster "east";
      pod_name = "b";
      routed = routed_b;
      error = not_found;
      unread = refl;
      is_not_found = refl;
    }

ensure_lifecycle_finalizer_local_example :
    (ensure_lifecycle_finalizer memory (some false) "ns" "flz" in_order [] ("b#east" ∷ []) start).1
    ≡ start
ensure_lifecycle_finalizer_local_example =
    ensure_lifecycle_finalizer_local memory memory-ReadsOwn "ns" "flz" in_order Perm.refl
      ("b#east" ∷ []) start missing_b

-- Every call of the second batch finds in `err` that a pod is missing: pod b keeps the finalizer, and
-- no error is returned.
raced :
    ensure_lifecycle_finalizer racing none "ns" "flz" in_order [] ("gone" ∷ "gone" ∷ "b" ∷ []) start
    ≡ (none, start)
unfolding ensure_lifecycle_finalizer slow_start_batch string_eq context_eq route
raced = refl

abbrev dying : Memory
dying = record start {
  pods = λ c ns n.
      some (record (pod n ("flz" ∷ [])) {
        meta = record (pod n ("flz" ∷ [])).meta { deleting = true };
      });
}

-- With its last finalizer a pod goes that is being deleted.
dying_goes :
    pod_at memory none "ns" "b"
      (ensure_lifecycle_finalizer memory none "ns" "flz" in_order [] ("b" ∷ []) dying).1
    ≡ failed not_found
unfolding ensure_lifecycle_finalizer slow_start_batch string_eq context_eq route employer_context
dying_goes = refl
