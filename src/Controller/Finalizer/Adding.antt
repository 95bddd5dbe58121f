-- ===== src/Controller/Finalizer/Adding.antt =====
-- `ensureLifecycleFinalizer` where employees are not in local clusters: which pods it gives the
-- finalizer, whatever the goroutines of the second batch read from the `err` that they share.
use mathlib.Core.List.{Perm}
use mathlib.Core.Path.{sym, ◌∙◌}
use resourceconsist.Base.{
  ℕ, String, ◌≡◌, ◌≢◌, Bool, true, false, Option, none, some, List, GoError, contains, string_eq,
  arith, inl, inr, Option-cases,
}
use resourceconsist.Controller.Client.{Client, IsPodStore, MultiCluster}
use resourceconsist.Controller.Finalizer.{
  add_lifecycle_finalizer, delete_lifecycle_finalizer, ensure_lifecycle_finalizer,
}
use resourceconsist.Controller.Finalizer.Effect.{
  HasFlz, add-Effect, delete-Effect, add-HasFlz, HasFlz-added,
}
use resourceconsist.Utils.Batch.Over.{batch_over, batch_over-establishes, batch_over-keeps}

module _ (k : Client) (store : IsPodStore k) (m : MultiCluster) (ns flz : String)
    (shared : m ≢ some false) (schedule : List ℕ → List ℕ)
    (fair : (is : List ℕ) → Perm (schedule is) is) where
  abbrev pub add : String → k.World → Option GoError × k.World
  add = add_lifecycle_finalizer k m ns flz

  abbrev pub delete : String → k.World → Option GoError × k.World
  delete = delete_lifecycle_finalizer k m ns flz

  abbrev Has : Bool → String → k.World → Type 0
  Has = HasFlz k store m ns flz shared

  Has-prop : (b : Bool) (n : String) (w : k.World) → IsProp (Has b n w)
  Has-prop b n w = hlevel

  -- A call of the second batch for another name does not touch the pod `n`.
  Has-delete_ne :
      (b : Bool) (j n : String) (w : k.World) → n ≢ j → Has b n w → Has b n (delete j w).1
  Has-delete_ne b j n w other h p at = elim (delete-Effect k store m ns flz shared j n w) [
    | inl same ↦ h p (sym same ∙ at)
    | inr (e, _) ↦ absurd (other e)
  ]

  pub batches-adds :
      (to_add to_delete : List String) (w : k.World) (n : String)
      → let r = batch_over schedule add to_add w in
        r.1 ≡ none
        → contains to_add n ≡ true
        → contains to_delete n ≡ false
        → Has true n (batch_over schedule delete to_delete r.2).2
  batches-adds to_add to_delete w n fine listed kept =
      batch_over-keeps schedule fair delete (Has true n) to_delete
        (λ j t named h. Has-delete_ne true j n t (λ e. ground (arith, named, kept, e)) h)
        (batch_over schedule add to_add w).2
        (batch_over-establishes schedule fair add (Has true) (Has-prop true)
          (add-HasFlz k store m ns flz shared)
          (λ j n' t h.
            HasFlz-added k store m ns flz shared j n' t (add j t).1
              (add-Effect k store m ns flz shared j n' t) h)
          to_add w fine n listed)

  -- If `ensureLifecycleFinalizer` returns no error, then every pod named in `toAdd` and not in
  -- `toDelete` that exists has the lifecycle finalizer, whatever the goroutines of the second batch
  -- read from the `err` that they share. Names are those of pods in one cluster; goroutines of a batch
  -- run in any order.
  pub ensure_lifecycle_finalizer-adds :
      (to_add to_delete : List String) (w : k.World) (n : String)
      → (ensure_lifecycle_finalizer k m ns flz schedule to_add to_delete w).0 ≡ none
      → contains to_add n ≡ true
      → contains to_delete n ≡ false
      → Has true n (ensure_lifecycle_finalizer k m ns flz schedule to_add to_delete w).1
  unfolding ensure_lifecycle_finalizer
  ensure_lifecycle_finalizer-adds to_add to_delete w n =
      elim (Option-cases (batch_over schedule add to_add w).1) [
        | inl fine ↦
            rw (fine, ensure_lifecycle_finalizer)
              (λ _ listed kept. batches-adds to_add to_delete w n fine listed kept)
        | inr (e, stopped) ↦ rw (stopped, ensure_lifecycle_finalizer) (λ p listed kept. cc p)
      ]
