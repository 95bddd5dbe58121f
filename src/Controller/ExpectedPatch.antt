-- ===== src/Controller/ExpectedPatch.antt =====
-- `patchAddPodExpectedFinalizer` and `patchDeletePodExpectedFinalizer` of
-- pkg/frame/controller/consister.go: the employer's key is put into, or taken out of, the expected
-- finalizers that the annotation of a pod lists.
pub mod Effect
pub mod Ops
pub mod Batches
pub mod Keeps
pub mod Listing
pub mod Unlisting
use mathlib.Core.List.{map}
use resourceconsist.Base.{
  ℕ, zero, suc, String, Bool, true, false, not, Option, none, some, List, [], ◌∷◌, if◌then◌else◌,
  length, GoError, errorf, ◌==◌, string_eq, inl, inr, get_elem?, is_none,
}
use resourceconsist.Base.GoMap.{get, insert, erase}
use resourceconsist.Controller.Types.{Pod, PodExpectedFinalizerOps}
use resourceconsist.Controller.Client.{
  Client, Context, Fetched, found, failed, MultiCluster, route, annotate,
}
use resourceconsist.Controller.KubeApi.{KubeApi, entries, value_or_empty, annotation}
use resourceconsist.Controller.Finalizer.{ignore_not_found}
use resourceconsist.Utils.Batch.{slow_start_batch}

abbrev pub OpsList : Type 0
OpsList = List PodExpectedFinalizerOps

abbrev pub new_ops : List String → OpsList
new_ops = map (λ name. record { name = name; succeed = false })

abbrev pub all_succeed : OpsList → Bool
all_succeed [] = true
all_succeed (op ∷ ops) = if op.succeed then all_succeed ops else false

abbrev pub any_succeed : OpsList → Bool
any_succeed [] = false
any_succeed (op ∷ ops) = if op.succeed then true else any_succeed ops

-- The names of the operations that have, or have not, succeeded.
abbrev pub names_with : Bool → OpsList → List String
names_with b [] = []
names_with b (op ∷ ops) =
    let rest = names_with b ops in
    if (if b then op.succeed else not op.succeed) then op.name ∷ rest else rest

-- `toAdd[i].Succeed = true`
abbrev pub set_succeed : ℕ → OpsList → OpsList
set_succeed i [] = []
set_succeed zero (op ∷ ops) = record op { succeed = true } ∷ ops
set_succeed (suc i) (op ∷ ops) = op ∷ set_succeed i ops

-- The error of a call, whether it has set `Succeed`, and the state that it leaves.
abbrev pub Done : Type 0 → Type 0
Done W = Option GoError × Bool × W

module _ {W : Type 0} where
  abbrev pub write_done : Option GoError × W → Done W
  write_done (e, w) = (e, is_none e, w)

  abbrev pub call_op :
      (String → W → Done W)
      → ℕ
      → OpsList
      → Option PodExpectedFinalizerOps
      → W
      → Option GoError × (W × OpsList)
  call_op f i ops none w = (some (errorf "index out of range"), (w, ops))
  call_op f i ops (some op) w =
      let (e, succeed, w') = f op.name w in (e, (w', if succeed then set_succeed i ops else ops))

  abbrev pub op_at_index : (String → W → Done W) → ℕ → W × OpsList → Option GoError × (W × OpsList)
  op_at_index f i (w, ops) = call_op f i ops (get_elem? ops i) w

  -- `SlowStartBatch(len(ops), 1, false, …)`
  abbrev pub batch_ops :
      (List ℕ → List ℕ) → (String → W → Done W) → OpsList → W → ℕ × Option GoError × (W × OpsList)
  batch_ops schedule f ops w =
      slow_start_batch (λ i _. op_at_index f i) schedule false (length ops) 1 (w, ops)

-- The pod with another text in the annotation of its conditions.
abbrev pub annotated : KubeApi → Pod → String → Pod
annotated api pod text =
    annotate pod (insert api.pod_available_conditions_annotation text (entries pod.annotations))

module _ (k : Client) (api : KubeApi) (multi_cluster : MultiCluster) (ns key flz : String) where
  -- The conditions are marshalled into the annotation, and the pod is patched.
  pub patch_conditions : Context → Pod → api.Conditions → k.World → Done k.World
  patch_conditions ctx pod conditions w = elim (api.marshal conditions) [
    | inl e ↦ (some e, false, w)
    | inr text ↦ write_done (k.patch_pod ctx (annotated api pod text) pod w)
  ]

  -- The pod's annotation is not empty, and holds `conditions`.
  pub add_to_conditions : Context → Pod → api.Conditions → k.World → Done k.World
  unfolding patch_conditions
  add_to_conditions ctx pod conditions w =
      let m = entries (api.expected_finalizers conditions) in
      if value_or_empty (get key m) == flz
      then (none, true, w)
      else patch_conditions ctx pod (api.set_expected_finalizers conditions (insert key flz m)) w

  pub add_to_annotation : Context → Pod → String → k.World → Done k.World
  unfolding add_to_conditions
  add_to_annotation ctx pod text w =
      if text == ""
      then patch_conditions ctx pod (api.set_expected_finalizers api.zero_value ((key, flz) ∷ [])) w
      else elim (api.unmarshal text api.zero_value) [
        | inl e ↦ (some e, false, w)
        | inr conditions ↦ add_to_conditions ctx pod conditions w
      ]

  pub add_expected_fetched : Context → Fetched Pod → k.World → Done k.World
  unfolding add_to_annotation
  add_expected_fetched ctx (failed e) w = (ignore_not_found e, false, w)
  add_expected_fetched ctx (found pod) w =
      if pod.deleting
      then (none, false, w)
      else add_to_annotation ctx pod
          (annotation api.pod_available_conditions_annotation pod.annotations) w

  -- The function that the batch of `patchAddPodExpectedFinalizer` calls.
  unfoldable pub add_expected_finalizer : String → k.World → Done k.World
  unfolding add_expected_fetched
  add_expected_finalizer name w = elim (route multi_cluster name) [
    | none ↦ (some (errorf "local employee's name invalid"), false, w)
    | some (ctx, pod_name) ↦ add_expected_fetched ctx (k.get_pod ctx ns pod_name w) w
  ]

  pub delete_from_conditions : Context → Pod → api.Conditions → k.World → Done k.World
  unfolding patch_conditions
  delete_from_conditions ctx pod conditions w =
      let m = entries (api.expected_finalizers conditions) in
      elim (get key m) [
        | none ↦ (none, true, w)
        | some _ ↦ patch_conditions ctx pod (api.set_expected_finalizers conditions (erase key m)) w
      ]

  pub delete_from_annotation : Context → Pod → String → k.World → Done k.World
  unfolding delete_from_conditions
  delete_from_annotation ctx pod text w =
      if text == "" then (none, true, w) else elim (api.unmarshal text api.zero_value) [
        | inl e ↦ (some e, false, w)
        | inr conditions ↦ delete_from_conditions ctx pod conditions w
      ]

  pub delete_expected_fetched : Context → Fetched Pod → k.World → Done k.World
  unfolding delete_from_annotation
  delete_expected_fetched ctx (failed e) w =
      if e.is_not_found then (none, true, w) else (some e, false, w)
  delete_expected_fetched ctx (found pod) w =
      delete_from_annotation ctx pod
        (annotation api.pod_available_conditions_annotation pod.annotations) w

  -- The function that the batch of `patchDeletePodExpectedFinalizer` calls.
  unfoldable pub delete_expected_finalizer : String → k.World → Done k.World
  unfolding delete_expected_fetched
  delete_expected_finalizer name w = elim (route multi_cluster name) [
    | none ↦ (some (errorf "local employee's name invalid"), false, w)
    | some (ctx, pod_name) ↦ delete_expected_fetched ctx (k.get_pod ctx ns pod_name w) w
  ]

  module _ (schedule : List ℕ → List ℕ) where
    unfoldable pub patch_add_pod_expected_finalizer :
        OpsList → k.World → Option GoError × (k.World × OpsList)
    unfolding add_expected_finalizer slow_start_batch
    patch_add_pod_expected_finalizer ops w =
        let (_, e, s) = batch_ops schedule add_expected_finalizer ops w in (e, s)

    unfoldable pub patch_delete_pod_expected_finalizer :
        OpsList → k.World → Option GoError × (k.World × OpsList)
    unfolding delete_expected_finalizer slow_start_batch
    patch_delete_pod_expected_finalizer ops w =
        let (_, e, s) = batch_ops schedule delete_expected_finalizer ops w in (e, s)
