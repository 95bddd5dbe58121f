-- ===== src/Controller/Finalizer.antt =====
-- `ensureLifecycleFinalizer` of pkg/frame/controller/consister.go: the lifecycle finalizer is put on
-- some pods and taken off others, in two batches.
pub mod Effect
pub mod Adding
pub mod Single
pub mod Frame
pub mod Local
pub mod Keeps
mod Tests
use resourceconsist.Base.{
  ℕ, zero, suc, String, Bool, true, false, Option, none, some, List, [], ◌∷◌, ◌++◌, if◌then◌else◌,
  length, GoError, errorf, contains, ◌==◌, string_eq,
}
use resourceconsist.Controller.Types.{Pod}
use resourceconsist.Controller.Client.{
  Client, Context, plain, fed, cluster, Fetched, found, failed, MultiCluster, route, tested,
  classified, passed, returned,
}
use resourceconsist.Utils.Batch.{slow_start_batch}
use resourceconsist.Utils.Batch.Over.{batch_over}

-- The finalizers other than `flz`.
abbrev pub without : String → List String → List String
without flz [] = []
without flz (f ∷ fs) = let rest = without flz fs in if f == flz then rest else f ∷ rest

abbrev pub set_finalizers : Pod → List String → Pod
set_finalizers pod fs = record pod { meta = record pod.meta { finalizers = fs } }

-- The context that `ensureLifecycleFinalizer` reads a pod in before it takes the finalizer off. With
-- employees in local clusters the code reads the local cluster first and then, since no `else` stands
-- there, the fed cluster into the same object.
abbrev pub delete_context : MultiCluster → Context
delete_context none = plain
delete_context (some _) = fed

-- `&corev1.Pod{}`
abbrev pub zero_pod : Pod
zero_pod = record {
  meta = record {
    name = "";
    namespace = "";
    labels = none;
    annotations = none;
    finalizers = [];
    deleting = false;
  };
  conditions = [];
  pod_ip = "";
  pod_ips = [];
}

-- The object that `Get` is given, afterwards: a `Get` that fails leaves it alone.
abbrev pub pod_after : Pod → Fetched Pod → Pod
pod_after before (failed e) = before
pod_after before (found pod) = pod

abbrev pub error_of : Fetched Pod → Option GoError
error_of (failed e) = some e
error_of (found pod) = none

abbrev pub ignore_not_found : GoError → Option GoError
ignore_not_found e = if e.is_not_found then none else some e

module _ (k : Client) (multi_cluster : MultiCluster) (ns flz : String) where
  pub add_to_pod : Context → Pod → k.World → Option GoError × k.World
  add_to_pod ctx pod w =
      if contains pod.finalizers flz
      then (none, w)
      else k.update_pod ctx (set_finalizers pod (pod.finalizers ++ flz ∷ [])) w

  pub add_fetched : Context → Fetched Pod → k.World → Option GoError × k.World
  unfolding add_to_pod
  add_fetched ctx (failed e) w = (ignore_not_found e, w)
  add_fetched ctx (found pod) w = add_to_pod ctx pod w

  -- The function that the first batch calls.
  pub add_lifecycle_finalizer : String → k.World → Option GoError × k.World
  unfolding add_fetched
  add_lifecycle_finalizer name w = elim (route multi_cluster name) [
    | none ↦ (some (errorf "local employee's name invalid"), w)
    | some (ctx, pod_name) ↦ add_fetched ctx (k.get_pod ctx ns pod_name w) w
  ]

  -- The `err` that the function of the second batch assigns to and reads is that of the enclosing
  -- function: `assigned` is what the call for `name` has put there, `err_read` what it then finds.
  pub delete_from_pod : Context → String → Pod → k.World → Option GoError × k.World
  delete_from_pod ctx name pod w =
      if contains pod.finalizers flz
      then (let r = k.update_pod ctx (set_finalizers pod (without flz pod.finalizers)) w in
          (k.err_read returned name r.0 r.1, r.1))
      else (none, w)

  -- Where `err` is read as an error after `Get`.
  pub delete_unread : String → Option GoError → k.World → Option GoError
  delete_unread name assigned w = elim (k.err_read classified name assigned w) [
    | none ↦ k.err_read passed name assigned w
    | some e ↦ if e.is_not_found then none else k.err_read passed name assigned w
  ]

  -- The rest of the call, by what `err` is where it is compared with `nil`.
  pub delete_tested :
      Context → String → Pod → Option GoError → Option GoError → k.World → Option GoError × k.World
  unfolding delete_from_pod delete_unread
  delete_tested ctx name pod assigned none w = delete_from_pod ctx name pod w
  delete_tested ctx name pod assigned (some _) w = (delete_unread name assigned w, w)

  pub delete_fetched : Context → String → Pod → Option GoError → k.World → Option GoError × k.World
  unfolding delete_tested
  delete_fetched ctx name pod assigned w =
      delete_tested ctx name pod assigned (k.err_read tested name assigned w) w

  -- The object before the last `Get` writes to it: with employees in local clusters a `Get` from the
  -- local cluster has gone before.
  pub local_read : MultiCluster → Context → String → k.World → Pod
  local_read (some false) ctx pod_name w = pod_after zero_pod (k.get_pod ctx ns pod_name w)
  local_read _ ctx pod_name w = zero_pod

  -- The function that the second batch calls.
  pub delete_lifecycle_finalizer : String → k.World → Option GoError × k.World
  unfolding delete_fetched local_read
  delete_lifecycle_finalizer name w = elim (route multi_cluster name) [
    | none ↦ (some (errorf "local employee's name invalid"), w)
    | some (ctx, pod_name) ↦
        let fetched = k.get_pod (delete_context multi_cluster) ns pod_name w in
        delete_fetched ctx name (pod_after (local_read multi_cluster ctx pod_name w) fetched)
          (error_of fetched) w
  ]

  module _ (schedule : List ℕ → List ℕ) where
    unfoldable pub ensure_lifecycle_finalizer :
        List String → List String → k.World → Option GoError × k.World
    unfolding add_lifecycle_finalizer delete_lifecycle_finalizer slow_start_batch
    ensure_lifecycle_finalizer to_add to_delete w =
        let (_, add_error, w') = batch_over schedule add_lifecycle_finalizer to_add w in
        elim add_error [
          | some e ↦ (some e, w')
          | none ↦
              let (_, delete_error, w'') =
                batch_over schedule delete_lifecycle_finalizer to_delete w' in
              (delete_error, w'')
        ]
