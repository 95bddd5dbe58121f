-- ===== src/Controller/ExpectedPatch/Batches.antt =====
-- What the two batches do to the pods, where employees are not in local clusters.
use mathlib.Core.List.{Perm}
use mathlib.Core.Path.{sym, ◌∙◌}
use resourceconsist.Base.{
  ℕ, String, ◌≡◌, ◌≢◌, ◌⊎◌, inl, inr, true, false, some, List, arith, contains, string_eq,
  get_elem?, [], refl, none, ap, Bool-cases,
}
use resourceconsist.Controller.Types.{Pod, PodExpectedFinalizerOps}
use resourceconsist.Controller.Client.{Client, IsPodStore, IsPodPatch, found, MultiCluster, route}
use resourceconsist.Controller.KubeApi.{KubeApi, IsKubeApi}
use resourceconsist.Controller.Finalizer.Effect.{pod_at}
use resourceconsist.Controller.ExpectedPatch.{
  OpsList, Done, new_ops, names_with, add_expected_finalizer, delete_expected_finalizer,
  patch_add_pod_expected_finalizer, patch_delete_pod_expected_finalizer,
}
use resourceconsist.Controller.ExpectedPatch.Effect.{Lacks, lists_key, add-effect, delete-Done}
use resourceconsist.Controller.ExpectedPatch.Ops.{
  op_names, op_names-new_ops, batch_ops-names, names_with-new_ops, mark, contains-mark_inv,
  contains-mark_old, contains-mark_new, batch_ops-keeps,
}

module _ (api : KubeApi) (key : String) (k : Client) (m : MultiCluster) (ns : String) where
  -- There is a pod of this name, and it lists the key.
  abbrev pub Lists : String → k.World → Type 0
  Lists n w = (p : Pod) × (pod_at k m ns n w ≡ found p) × (lists_key api key p ≡ true)

module _ (k : Client) (api : KubeApi) (m : MultiCluster) (ns key flz : String)
    (schedule : List ℕ → List ℕ) where
  -- With nothing to add there is no call.
  pub patch_add-nil :
      (w : k.World)
      → patch_add_pod_expected_finalizer k api m ns key flz schedule [] w ≡ (none, (w, []))
  unfolding patch_add_pod_expected_finalizer
  patch_add-nil w = refl

  module _ (fair : (is : List ℕ) → Perm (schedule is) is) where
    pub patch_delete-names :
        (names : List String) (w : k.World)
        → op_names
            (patch_delete_pod_expected_finalizer k api m ns key flz schedule (new_ops names) w).1.1
          ≡ names
    unfolding patch_delete_pod_expected_finalizer
    patch_delete-names names w =
        batch_ops-names schedule fair (delete_expected_finalizer k api m ns key flz) (new_ops names)
          w
        ∙ op_names-new_ops names

module _ (k : Client) (api : KubeApi) (ns key flz : String) (schedule : List ℕ → List ℕ)
    (fair : (is : List ℕ) → Perm (schedule is) is) where
  delete-no_name :
      (w : k.World) → (delete_expected_finalizer k api (some false) ns key flz "" w).1 ≡ false
  unfolding delete_expected_finalizer route
  delete-no_name w = refl

  -- With employees in local clusters, the operation for the empty name never succeeds.
  pub patch_delete_local-no_name :
      (names : List String) (w : k.World)
      → contains
          (names_with true
            (patch_delete_pod_expected_finalizer k api
              (some false)
              ns
              key
              flz
              schedule
              (new_ops names)
              w).1.1)
          ""
        ≡ false
  unfolding patch_delete_pod_expected_finalizer
  patch_delete_local-no_name names w =
      batch_ops-keeps schedule fair f (λ t os. contains (names_with true os) "" ≡ false)
        (λ i t os op here p.
          elim (Bool-cases (contains (names_with true (mark (f op.name t).1 i os)) "")) [
            | inr absent ↦ absent
            | inl new ↦ elim (contains-mark_inv (f op.name t).1 i os op "" here new) [
              | inl old ↦ cc (old, p)
              | inr (done, e) ↦ cc (done, ap (λ n. (f n t).1) e, delete-no_name t)
            ]
          ])
        (new_ops names) w (ap (λ ns. contains ns "") (names_with-new_ops names))
    where
      f : String → k.World → Done k.World
      f = delete_expected_finalizer k api (some false) ns key flz

module _ (k : Client) (store : IsPodStore k) (patches : IsPodPatch k) (api : KubeApi)
    (laws : IsKubeApi api) (m : MultiCluster) (ns key flz : String) (shared : m ≢ some false)
    (schedule : List ℕ → List ℕ) (fair : (is : List ℕ) → Perm (schedule is) is) where
  abbrev add : String → k.World → Done k.World
  add = add_expected_finalizer k api m ns key flz

  abbrev delete : String → k.World → Done k.World
  delete = delete_expected_finalizer k api m ns key flz

  abbrev ListsHere : String → k.World → Type 0
  ListsHere = Lists api key k m ns

  -- The pods of the operations that have succeeded do not list the key, and no pod has begun to.
  pub record IsDeleted (w w' : k.World) (ops : OpsList) : Type 0 where
    pub lacks : (n : String) → contains (names_with true ops) n ≡ true → Lacks api key k m ns n w'
    pub was_listed : (n : String) → Lists api key k m ns n w' → Lists api key k m ns n w

  -- A pod that lists the key listed it before, or an operation for it has succeeded.
  pub record IsAdded (w w' : k.World) (ops : OpsList) : Type 0 where
    pub was_listed :
        (n : String)
        → Lists api key k m ns n w'
        → Lists api key k m ns n w ⊎ (contains (names_with true ops) n ≡ true)

  Lacks-delete :
      (name n : String) (t : k.World)
      → Lacks api key k m ns n t
      → Lacks api key k m ns n (delete name t).2
  Lacks-delete name n t h =
      elim ((delete-Done k store patches api laws m ns key flz shared name t).0 n) [
        | inl same ↦ rw same h
        | inr (e, absent) ↦ absent
      ]

  listed-delete : (name n : String) (t : k.World) → ListsHere n (delete name t).2 → ListsHere n t
  listed-delete name n t (p, at, listed) =
      elim ((delete-Done k store patches api laws m ns key flz shared name t).0 n) [
        | inl same ↦ (p, ground (arith, same, at), listed)
        | inr (e, absent) ↦ cc (absent p at, listed)
      ]

  IsDeleted-call :
      (w : k.World) (i : ℕ) (t : k.World) (ops : OpsList) (op : PodExpectedFinalizerOps)
      → get_elem? ops i ≡ some op
      → IsDeleted w t ops
      → IsDeleted w (delete op.name t).2 (mark (delete op.name t).1 i ops)
  IsDeleted-call w i t ops op here d = record {
    lacks = λ n succeeded. elim (contains-mark_inv (delete op.name t).1 i ops op n here succeeded) [
      | inl before ↦ Lacks-delete op.name n t (d.lacks n before)
      | inr (done, e) ↦
          rw (← e) ((delete-Done k store patches api laws m ns key flz shared op.name t).1 done)
    ];
    was_listed = λ n h. d.was_listed n (listed-delete op.name n t h);
  }

  IsAdded-call :
      (w : k.World) (i : ℕ) (t : k.World) (ops : OpsList) (op : PodExpectedFinalizerOps)
      → get_elem? ops i ≡ some op
      → IsAdded w t ops
      → IsAdded w (add op.name t).2 (mark (add op.name t).1 i ops)
  IsAdded-call w i t ops op here a = record {
    was_listed = λ n (p, at, listed).
        let b = (add op.name t).1 in
        elim (add-effect k store patches api laws m ns key flz shared op.name n t) [
          | inr (e, done) ↦ inr (contains-mark_new b i ops op n here done (sym e))
          | inl same ↦ elim (a.was_listed n (p, ground (arith, same, at), listed)) [
            | inl before ↦ inl before
            | inr succeeded ↦ inr (contains-mark_old b i ops op n here succeeded)
          ]
        ];
  }

  pub patch_delete-IsDeleted :
      (names : List String) (w : k.World)
      → let r = patch_delete_pod_expected_finalizer k api m ns key flz schedule (new_ops names) w in
        IsDeleted w r.1.0 r.1.1
  unfolding patch_delete_pod_expected_finalizer
  patch_delete-IsDeleted names w =
      batch_ops-keeps schedule fair delete (IsDeleted w) (IsDeleted-call w) (new_ops names) w
        (record { lacks = λ n h. cc (h, names_with-new_ops names); was_listed = λ n h. h })

  pub patch_add-IsAdded :
      (names : List String) (w : k.World)
      → let r = patch_add_pod_expected_finalizer k api m ns key flz schedule (new_ops names) w in
        IsAdded w r.1.0 r.1.1
  unfolding patch_add_pod_expected_finalizer
  patch_add-IsAdded names w =
      batch_ops-keeps schedule fair add (IsAdded w) (IsAdded-call w) (new_ops names) w
        (record { was_listed = λ n h. inl h })
