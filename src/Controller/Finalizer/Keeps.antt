-- ===== src/Controller/Finalizer/Keeps.antt =====
-- What every update of a pod keeps, `ensureLifecycleFinalizer` keeps.
use mathlib.Core.List.{Perm}
use resourceconsist.Base.{
  ℕ, String, Bool, true, false, List, GoError, if◌then◌else◌, string_eq, Option-cases, inl, inr,
  Option, none, some,
}
use resourceconsist.Controller.Types.{Pod}
use resourceconsist.Controller.Client.{
  Client, Context, Fetched, found, failed, MultiCluster, route, tested,
}
use resourceconsist.Controller.Finalizer.{
  add_lifecycle_finalizer, add_fetched, delete_lifecycle_finalizer, delete_fetched, delete_tested,
  delete_from_pod, ensure_lifecycle_finalizer,
}
use resourceconsist.Utils.Batch.Over.{batch_over, batch_over-keeps}

module _ (k : Client) (m : MultiCluster) (ns flz : String) (P : k.World → Type 0)
    (update : (c : Context) (p : Pod) (w : k.World) → P w → P (k.update_pod c p w).1) where
  abbrev KeepsCall : k.World → Option GoError × k.World → Type 0
  KeepsCall w r = P w → P r.1

  if-KeepsCall :
      (w : k.World) (b : Bool) (x y : Option GoError × k.World)
      → KeepsCall w x
      → KeepsCall w y
      → KeepsCall w (if b then x else y)
  if-KeepsCall w true x y p q = p
  if-KeepsCall w false x y p q = q

  add_fetched-Keeps :
      (c : Context) (f : Fetched Pod) (w : k.World) → KeepsCall w (add_fetched k m ns flz c f w)
  unfolding add_fetched
  add_fetched-Keeps c (failed e) w = λ h. h
  add_fetched-Keeps c (found p) w = if-KeepsCall w _ _ _ (λ h. h) (update c _ w)

  delete_tested-Keeps :
      (c : Context) (name : String) (p : Pod) (assigned read : Option GoError) (w : k.World)
      → KeepsCall w (delete_tested k m ns flz c name p assigned read w)
  unfolding delete_tested delete_from_pod
  delete_tested-Keeps c name p assigned none w = if-KeepsCall w _ _ _ (update c _ w) (λ h. h)
  delete_tested-Keeps c name p assigned (some x) w = λ h. h

  delete_fetched-Keeps :
      (c : Context) (name : String) (p : Pod) (assigned : Option GoError) (w : k.World)
      → KeepsCall w (delete_fetched k m ns flz c name p assigned w)
  unfolding delete_fetched
  delete_fetched-Keeps c name p assigned w =
      delete_tested-Keeps c name p assigned (k.err_read tested name assigned w) w

  add-Keeps :
      (name : String) (w : k.World) → KeepsCall w (add_lifecycle_finalizer k m ns flz name w)
  unfolding add_lifecycle_finalizer
  add-Keeps name w h = elim (Option-cases (route m name)) [
    | inl invalid ↦ rw (invalid, add_lifecycle_finalizer) h
    | inr ((c, n), routed) ↦
        rw (routed, add_lifecycle_finalizer) (add_fetched-Keeps c (k.get_pod c ns n w) w h)
  ]

  delete-Keeps :
      (name : String) (w : k.World) → KeepsCall w (delete_lifecycle_finalizer k m ns flz name w)
  unfolding delete_lifecycle_finalizer
  delete-Keeps name w h = elim (Option-cases (route m name)) [
    | inl invalid ↦ rw (invalid, delete_lifecycle_finalizer) h
    | inr ((c, n), routed) ↦
        rw (routed, delete_lifecycle_finalizer) (delete_fetched-Keeps c name _ _ w h)
  ]

  pub ensure_lifecycle_finalizer-Keeps :
      (schedule : List ℕ → List ℕ) (fair : (is : List ℕ) → Perm (schedule is) is)
      (to_add to_delete : List String) (w : k.World)
      → P w
      → P (ensure_lifecycle_finalizer k m ns flz schedule to_add to_delete w).1
  unfolding ensure_lifecycle_finalizer
  ensure_lifecycle_finalizer-Keeps schedule fair to_add to_delete w h =
      let added =
        batch_over-keeps schedule fair (add_lifecycle_finalizer k m ns flz) P to_add
          (λ j t _ p. add-Keeps j t p) w h in
      elim (Option-cases (batch_over schedule (add_lifecycle_finalizer k m ns flz) to_add w).1) [
        | inr (e, stopped) ↦ rw (stopped, ensure_lifecycle_finalizer) added
        | inl fine ↦
            rw (fine, ensure_lifecycle_finalizer)
              (batch_over-keeps schedule fair (delete_lifecycle_finalizer k m ns flz) P to_delete
                (λ j t _ p. delete-Keeps j t p) _ added)
      ]
