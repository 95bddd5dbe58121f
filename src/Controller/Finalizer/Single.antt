-- ===== src/Controller/Finalizer/Single.antt =====
-- `ensureLifecycleFinalizer` where employees are not in local clusters: which pods have the
-- finalizer afterwards.
use mathlib.Core.List.{Perm}
use resourceconsist.Base.{
  ℕ, String, ◌≡◌, ◌≢◌, Bool, true, false, Option, none, some, List, GoError, contains, string_eq,
  inl, inr, Option-cases,
}
use resourceconsist.Controller.Client.{Client, IsPodStore, MultiCluster, ReadsOwn}
use resourceconsist.Controller.Finalizer.{
  add_lifecycle_finalizer, delete_lifecycle_finalizer, ensure_lifecycle_finalizer,
}
use resourceconsist.Controller.Finalizer.Effect.{
  HasFlz, delete-Effect, delete-HasFlz, HasFlz-without,
}
use resourceconsist.Controller.Finalizer.Adding.{batches-adds}
use resourceconsist.Utils.Batch.Over.{batch_over, batch_over-establishes}

module _ (k : Client) (store : IsPodStore k) (m : MultiCluster) (ns flz : String)
    (shared : m ≢ some false) (schedule : List ℕ → List ℕ)
    (fair : (is : List ℕ) → Perm (schedule is) is) (own : ReadsOwn k) where
  abbrev add : String → k.World → Option GoError × k.World
  add = add_lifecycle_finalizer k m ns flz

  abbrev delete : String → k.World → Option GoError × k.World
  delete = delete_lifecycle_finalizer k m ns flz

  abbrev Has : Bool → String → k.World → Type 0
  Has = HasFlz k store m ns flz shared

  Has-prop : (b : Bool) (n : String) (w : k.World) → IsProp (Has b n w)
  Has-prop b n w = hlevel

  -- What a run that reported no error leaves.
  pub record IsEnsured (to_add to_delete : List String) (w : k.World) : Type 0 where
    pub deleted : (n : String) → contains to_delete n ≡ true → Has false n w
    pub added :
        (n : String) → contains to_add n ≡ true → contains to_delete n ≡ false → Has true n w

  pub batches-IsEnsured :
      (to_add to_delete : List String) (w : k.World)
      → let r = batch_over schedule add to_add w in
        let t = batch_over schedule delete to_delete r.2 in
        r.1 ≡ none → t.1 ≡ none → IsEnsured to_add to_delete t.2
  batches-IsEnsured to_add to_delete w fine fine' =
      let w' = (batch_over schedule add to_add w).2 in
      record {
        deleted = λ n listed.
            batch_over-establishes schedule fair delete (Has false) (Has-prop false)
              (delete-HasFlz k store m ns flz shared own)
              (λ j n' t h.
                HasFlz-without k store m ns flz shared j n' t (delete j t).1
                  (delete-Effect k store m ns flz shared j n' t) h)
              to_delete w' fine' n listed;
        added = λ n listed kept.
            batches-adds k store m ns flz shared schedule fair to_add to_delete w n fine listed
              kept;
      }

  -- If `ensureLifecycleFinalizer` returns no error: every pod named in `toDelete` that exists has no
  -- lifecycle finalizer, and every pod named in `toAdd` and not in `toDelete` that exists has it.
  -- Names are those of pods in one cluster; goroutines of a batch run in any order, and none assigns
  -- the `err` that those of the second batch share between another's assignment and its reading of it.
  pub ensure_lifecycle_finalizer-IsEnsured :
      (to_add to_delete : List String) (w : k.World)
      → (ensure_lifecycle_finalizer k m ns flz schedule to_add to_delete w).0 ≡ none
      → IsEnsured to_add to_delete
          (ensure_lifecycle_finalizer k m ns flz schedule to_add to_delete w).1
  unfolding ensure_lifecycle_finalizer
  ensure_lifecycle_finalizer-IsEnsured to_add to_delete w =
      elim (Option-cases (batch_over schedule add to_add w).1) [
        | inl fine ↦
            rw (fine, ensure_lifecycle_finalizer)
              (λ fine'. batches-IsEnsured to_add to_delete w fine fine')
        | inr (e, stopped) ↦ rw (stopped, ensure_lifecycle_finalizer) (λ p. cc p)
      ]
