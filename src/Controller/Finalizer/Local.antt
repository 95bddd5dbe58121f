-- ===== src/Controller/Finalizer/Local.antt =====
-- `ensureLifecycleFinalizer` where employees are in local clusters.
use mathlib.Core.List.{Perm}
use mathlib.Core.Path.{◌∙◌, subst, sym}
use resourceconsist.Base.{
  ℕ, String, ◌≡◌, refl, true, false, Option, none, some, List, [], GoError, contains, string_eq, ap,
}
use resourceconsist.Controller.Types.{Pod}
use resourceconsist.Controller.Client.{
  Client, Context, fed, failed, route, ReadsOwn, tested, classified,
}
use resourceconsist.Controller.Finalizer.{
  delete_lifecycle_finalizer, delete_fetched, delete_tested, delete_unread, pod_after, error_of,
  local_read, ensure_lifecycle_finalizer,
}
use resourceconsist.Utils.Batch.{slow_start_batch}
use resourceconsist.Utils.Batch.Over.{batch_over-keeps}

module _ (k : Client) (own : ReadsOwn k) (ns flz : String) where
  -- The fed cluster has no pod of the name that an employee's name gives.
  pub record IsMissingInFed (name : String) (w : k.World) : Type 0 where
    pub context : Context
    pub pod_name : String
    pub routed : route (some false) name ≡ some (context, pod_name)
    pub error : GoError
    pub unread : k.get_pod fed ns pod_name w ≡ failed error
    pub is_not_found : error.is_not_found ≡ true

  unread_lem :
      (name : String) (e : GoError) (w : k.World)
      → e.is_not_found ≡ true
      → delete_unread k (some false) ns flz name (some e) w ≡ none
  unfolding delete_unread
  unread_lem name e w missing = rw (own classified name (some e) w, delete_unread) (rw missing refl)

  missing_lem :
      (c : Context) (name : String) (p : Pod) (e : GoError) (read : Option GoError) (w : k.World)
      → read ≡ some e
      → e.is_not_found ≡ true
      → delete_tested k (some false) ns flz c name p (some e) read w ≡ (none, w)
  unfolding delete_tested
  missing_lem c name p e none w same missing = cc same
  missing_lem c name p e (some x) w same missing = ap (λ o. (o, w)) (unread_lem name e w missing)

  delete_local_lem :
      (name : String) (w : k.World)
      → IsMissingInFed name w
      → delete_lifecycle_finalizer k (some false) ns flz name w ≡ (none, w)
  unfolding delete_lifecycle_finalizer delete_fetched
  delete_local_lem name w h =
      rw (h.routed, delete_lifecycle_finalizer)
        (subst
          (λ f.
            delete_fetched k (some false) ns flz h.context name
              (pod_after (local_read k (some false) ns flz (some false) h.context h.pod_name w) f)
              (error_of f) w
            ≡ (none, w))
          (sym h.unread)
          (missing_lem h.context name _ h.error _ w (own tested name (some h.error) w)
            h.is_not_found))

  module _ (schedule : List ℕ → List ℕ) (fair : (is : List ℕ) → Perm (schedule is) is) where
    -- With employees in local clusters, `ensureLifecycleFinalizer` asked to take the finalizer off
    -- pods that the fed cluster does not have changes nothing, whatever the local clusters hold, where
    -- each call of the batch reads its own `err`.
    pub ensure_lifecycle_finalizer_local :
        (to_delete : List String) (w : k.World)
        → ((name : String) → contains to_delete name ≡ true → IsMissingInFed name w)
        → (ensure_lifecycle_finalizer k (some false) ns flz schedule [] to_delete w).1 ≡ w
    unfolding ensure_lifecycle_finalizer slow_start_batch
    ensure_lifecycle_finalizer_local to_delete w missing =
        batch_over-keeps schedule fair (delete_lifecycle_finalizer k (some false) ns flz)
          (λ t. t ≡ w) to_delete
          (λ j t listed same.
            ap (λ u. (delete_lifecycle_finalizer k (some false) ns flz j u).1) same
            ∙ ap (λ r. r.1) (delete_local_lem j w (missing j listed)))
          w refl
