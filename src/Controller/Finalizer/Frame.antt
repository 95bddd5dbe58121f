-- ===== src/Controller/Finalizer/Frame.antt =====
-- `ensureLifecycleFinalizer` where employees are not in local clusters: what it leaves alone.
use mathlib.Core.List.{Perm}
use resourceconsist.Base.{
  ℕ, String, ◌≡◌, ◌≢◌, true, false, Option, some, List, GoError, contains, string_eq,
}
use resourceconsist.Controller.Types.{Pod}
use resourceconsist.Controller.Client.{Client, IsPodStore, MultiCluster, Fetched, found, failed}
use resourceconsist.Controller.Finalizer.{
  add_lifecycle_finalizer, delete_lifecycle_finalizer, set_finalizers,
}
use resourceconsist.Controller.Finalizer.Effect.{Effect}

module _ (k : Client) (store : IsPodStore k) (m : MultiCluster) (ns flz : String)
    (shared : m ≢ some false) (schedule : List ℕ → List ℕ)
    (fair : (is : List ℕ) → Perm (schedule is) is) where
  abbrev add : String → k.World → Option GoError × k.World
  add = add_lifecycle_finalizer k m ns flz

  abbrev delete : String → k.World → Option GoError × k.World
  delete = delete_lifecycle_finalizer k m ns flz

  -- Two reads of one pod that differ at most in whether the lifecycle finalizer is listed, or of a pod
  -- that was being deleted with no other finalizer and is gone.
  abbrev pub SameBut : Fetched Pod → Fetched Pod → Type 0
  SameBut (failed e) g = g ≡ failed e
  SameBut (found p) (failed e) =
      (p.deleting ≡ true)
      × (e.is_not_found ≡ true)
      × ((f : String) → f ≢ flz → contains p.finalizers f ≡ false)
  SameBut (found p) (found q) =
      (q ≡ set_finalizers p q.finalizers)
      × ((f : String) → f ≢ flz → contains q.finalizers f ≡ contains p.finalizers f)
