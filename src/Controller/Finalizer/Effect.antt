-- ===== src/Controller/Finalizer/Effect.antt =====
-- What one call of either batch does to the pods, where employees are not in local clusters.
use resourceconsist.Base.{
  String, Option, GoError, ◌≡◌, ◌≢◌, refl, ◌∙◌, sym, ◌⊎◌, inl, inr, Bool, true, false, none, some,
  List, [], ◌∷◌, ◌++◌, contains, string_eq, arith, Bool-cases, Option-cases,
}
use resourceconsist.Controller.Types.{Pod}
use resourceconsist.Controller.Client.{
  Client, IsPodStore, IsWritten, ReadsOwn, tested, returned, Fetched, found, failed, MultiCluster,
  route, employer_context,
}
use resourceconsist.Controller.Finalizer.{
  without, set_finalizers, delete_context, add_lifecycle_finalizer, delete_lifecycle_finalizer,
}
use resourceconsist.Controller.Finalizer.{add_fetched}
use resourceconsist.Controller.Finalizer.{
  add_to_pod, delete_fetched, delete_tested, delete_from_pod, local_read, zero_pod, pod_after,
  error_of,
}

pub contains-append_self : (fs : List String) (f : String) → contains (fs ++ f ∷ []) f ≡ true
contains-append_self [] f = ground arith
contains-append_self (x ∷ fs) f = ground (arith, contains-append_self fs f)

pub contains-append_ne :
    (fs : List String) (f g : String) → g ≢ f → contains (fs ++ f ∷ []) g ≡ contains fs g
contains-append_ne [] f g h = ground arith
contains-append_ne (x ∷ fs) f g h = ground (arith, contains-append_ne fs f g h)

pub contains-without_self : (f : String) (fs : List String) → contains (without f fs) f ≡ false
contains-without_self f [] = refl
contains-without_self f (x ∷ fs) = ground (arith, contains-without_self f fs)

pub contains-without_ne :
    (f : String) (fs : List String) (g : String) → g ≢ f → contains (without f fs) g ≡ contains fs g
contains-without_ne f [] g h = refl
contains-without_ne f (x ∷ fs) g h = ground (arith, contains-without_ne f fs g h)

-- The employees' names are pods' names, all in one cluster.
pub route-shared :
    (m : MultiCluster) (name : String)
    → m ≢ some false
    → route m name ≡ some (employer_context m, name)
unfolding route employer_context
route-shared none name h = refl
route-shared (some true) name h = refl
route-shared (some false) name h = absurd (h refl)

pub delete_context-shared :
    (m : MultiCluster) → m ≢ some false → delete_context m ≡ employer_context m
unfolding employer_context
delete_context-shared none h = refl
delete_context-shared (some true) h = refl
delete_context-shared (some false) h = absurd (h refl)

pub local_read-shared :
    (k : Client) (m : MultiCluster) (ns flz : String)
    → m ≢ some false
    → (name : String) (w : k.World) → local_read k m ns flz m (employer_context m) name w ≡ zero_pod
unfolding local_read
local_read-shared k none ns flz h name w = refl
local_read-shared k (some true) ns flz h name w = refl
local_read-shared k (some false) ns flz h name w = absurd (h refl)

module _ (k : Client) (m : MultiCluster) (ns : String) where
  abbrev pub pod_at : String → k.World → Fetched Pod
  pod_at n w = k.get_pod (employer_context m) ns n w

  -- How one call changes the pod `n`, of those that it is made for `name`: `fs` gives its finalizers.
  -- A pod that is being deleted may go with its last finalizer.
  abbrev pub Effect : (List String → List String) → String → String → k.World → k.World → Type 0
  Effect fs name n w w' =
      (pod_at n w' ≡ pod_at n w)
      ⊎ ((n ≡ name)
          × ((p : Pod) × (pod_at n w ≡ found p)
              × IsWritten p.deleting (fs p.finalizers) (set_finalizers p (fs p.finalizers))
                  (pod_at n w')))

module _ (k : Client) (store : IsPodStore k) (m : MultiCluster) (ns : String) where
  -- A write of the pod `name` with other finalizers: every pod is as it was, or is that pod and is
  -- written with them.
  update-effect :
      (name n : String) (w : k.World) (p : Pod) (fs : List String)
      → pod_at k m ns name w ≡ found p
      → let r = k.update_pod (employer_context m) (set_finalizers p fs) w in
        (pod_at k m ns n r.1 ≡ pod_at k m ns n w)
        ⊎ ((n ≡ name) × IsWritten p.deleting fs (set_finalizers p fs) (pod_at k m ns n r.1))
  update-effect name n w p fs h =
      let c = employer_context m in
      let q = set_finalizers p fs in
      let (in_ns, named) = store.get-named c ns name w p h in
      elim (Option-cases (k.update_pod c q w).0) [
        | inr (e, refused) ↦ inl (store.get-update_failed c c q ns n w e refused)
        | inl stored ↦ elim (string_eq.dec n name) [
          | yes same ↦ inr (same, rw same (store.get-update_same c ns name p fs w h stored))
          | no other ↦
              inl (store.get-update_other c c q ns n w (inr (inr (λ e. other (e ∙ named)))))
        ]
      ]

module _ (k : Client) (store : IsPodStore k) (m : MultiCluster) (ns flz : String)
    (shared : m ≢ some false) where
  abbrev pub added : List String → List String
  added fs = fs ++ flz ∷ []

  add-eq :
      (name : String) (w : k.World)
      → add_lifecycle_finalizer k m ns flz name w
        ≡ add_fetched k m ns flz (employer_context m) (pod_at k m ns name w) w
  unfolding add_lifecycle_finalizer
  add-eq name w = rw (route-shared m name shared, add_lifecycle_finalizer)

  -- A call of the second batch after the answer of `Get`.
  abbrev delete_of : String → k.World → Fetched Pod → Option GoError × k.World
  delete_of name w f =
      delete_fetched k m ns flz (employer_context m) name (pod_after zero_pod f) (error_of f) w

  delete-eq :
      (name : String) (w : k.World)
      → delete_lifecycle_finalizer k m ns flz name w ≡ delete_of name w (pod_at k m ns name w)
  unfolding delete_lifecycle_finalizer
  delete-eq name w = rw (
    route-shared m name shared,
    delete_lifecycle_finalizer,
    delete_context-shared m shared,
    local_read-shared k m ns flz shared name w,
  )

  update-Effect :
      (fs : List String → List String) (name n : String) (w : k.World) (p : Pod)
      → pod_at k m ns name w ≡ found p
      → Effect k m ns fs name n w
          (k.update_pod (employer_context m) (set_finalizers p (fs p.finalizers)) w).1
  update-Effect fs name n w p h = elim (update-effect k store m ns name n w p (fs p.finalizers) h) [
    | inl same ↦ inl same
    | inr (e, now) ↦ inr (e, (p, rw e h, now))
  ]

  add_fetched-Effect :
      (name n : String) (w : k.World) (f : Fetched Pod)
      → pod_at k m ns name w ≡ f
      → Effect k m ns added name n w (add_fetched k m ns flz (employer_context m) f w).1
  unfolding add_fetched
  add_fetched-Effect name n w (failed e) h = inl refl
  add_fetched-Effect name n w (found p) h = elim (Bool-cases (contains p.finalizers flz)) [
    | inl old ↦ rw old (inl refl)
    | inr new ↦ rw new (update-Effect added name n w p h)
  ]

  pub add-Effect :
      (name n : String) (w : k.World)
      → Effect k m ns added name n w (add_lifecycle_finalizer k m ns flz name w).1
  add-Effect name n w = rw (add-eq name w) (add_fetched-Effect name n w (pod_at k m ns name w) refl)

  delete_tested-Effect :
      (name n : String) (w : k.World) (f : Fetched Pod) (assigned read : Option GoError)
      → pod_at k m ns name w ≡ f
      → Effect k m ns
          (without flz)
          name
          n
          w
          (delete_tested k m ns flz
            (employer_context m)
            name
            (pod_after zero_pod f)
            assigned
            read
            w).1
  unfolding delete_tested delete_from_pod
  delete_tested-Effect name n w f assigned (some x) h = inl refl
  delete_tested-Effect name n w (failed e) assigned none h = inl refl
  delete_tested-Effect name n w (found p) assigned none h =
      elim (Bool-cases (contains p.finalizers flz)) [
        | inl old ↦ rw old (update-Effect (without flz) name n w p h)
        | inr new ↦ rw new (inl refl)
      ]

  delete_fetched-Effect :
      (name n : String) (w : k.World) (f : Fetched Pod)
      → pod_at k m ns name w ≡ f
      → Effect k m ns (without flz) name n w (delete_of name w f).1
  unfolding delete_fetched
  delete_fetched-Effect name n w f h =
      delete_tested-Effect name n w f (error_of f) (k.err_read tested name (error_of f) w) h

  pub delete-Effect :
      (name n : String) (w : k.World)
      → Effect k m ns (without flz) name n w (delete_lifecycle_finalizer k m ns flz name w).1
  delete-Effect name n w =
      rw (delete-eq name w) (delete_fetched-Effect name n w (pod_at k m ns name w) refl)

  -- The pod has the finalizer, if there is one of this name.
  abbrev pub HasFlz : Bool → String → k.World → Type 0
  HasFlz b n w = (p : Pod) → pod_at k m ns n w ≡ found p → contains p.finalizers flz ≡ b

  update-HasFlz :
      (b : Bool) (name : String) (w : k.World) (q : Pod) (fs : List String)
      → pod_at k m ns name w ≡ found q
      → contains fs flz ≡ b
      → (k.update_pod (employer_context m) (set_finalizers q fs) w).0 ≡ none
      → HasFlz b name (k.update_pod (employer_context m) (set_finalizers q fs) w).1
  update-HasFlz b name w q fs h has stored p at =
      elim (store.get-update_same (employer_context m) ns name q fs w h stored) [
        | inl same ↦ ground (arith, same, at, has)
        | inr (_, _, (x, gone, _)) ↦ cc (gone, at)
      ]

  add_to_pod-HasFlz :
      (name : String) (w : k.World) (q : Pod)
      → pod_at k m ns name w ≡ found q
      → (add_to_pod k m ns flz (employer_context m) q w).0 ≡ none
      → HasFlz true name (add_to_pod k m ns flz (employer_context m) q w).1
  unfolding add_to_pod
  add_to_pod-HasFlz name w q h = elim (Bool-cases (contains q.finalizers flz)) [
    | inl old ↦ rw old (λ fine p at. ground (arith, h, at, old))
    | inr new ↦
        rw new (
          update-HasFlz true name w q (added q.finalizers) h
            (contains-append_self q.finalizers flz))
  ]

  add_fetched-HasFlz :
      (name : String) (w : k.World) (f : Fetched Pod)
      → pod_at k m ns name w ≡ f
      → (add_fetched k m ns flz (employer_context m) f w).0 ≡ none
      → HasFlz true name (add_fetched k m ns flz (employer_context m) f w).1
  unfolding add_fetched
  add_fetched-HasFlz name w (failed e) h fine p at = cc (h, at)
  add_fetched-HasFlz name w (found q) h fine p at = add_to_pod-HasFlz name w q h fine p at

  delete_from_pod-HasFlz :
      ReadsOwn k
      → (name : String) (w : k.World) (q : Pod) → pod_at k m ns name w ≡ found q
      → (delete_from_pod k m ns flz (employer_context m) name q w).0 ≡ none
      → HasFlz false name (delete_from_pod k m ns flz (employer_context m) name q w).1
  unfolding delete_from_pod
  delete_from_pod-HasFlz own name w q h = elim (Bool-cases (contains q.finalizers flz)) [
    | inl old ↦ rw old (λ fine.
        update-HasFlz false name w q (without flz q.finalizers) h
          (contains-without_self flz q.finalizers) (sym (own returned name _ _) ∙ fine))
    | inr new ↦ rw new (λ fine p at. ground (arith, h, at, new))
  ]

  delete_tested-HasFlz :
      ReadsOwn k
      → (name : String) (w : k.World) (f : Fetched Pod) (read : Option GoError)
      → pod_at k m ns name w ≡ f
      → read ≡ error_of f
      → let r =
          delete_tested k m ns flz
            (employer_context m)
            name
            (pod_after zero_pod f)
            (error_of f)
            read
            w in
        r.0 ≡ none → HasFlz false name r.1
  unfolding delete_tested
  delete_tested-HasFlz own name w (failed e) (some x) h same fine p at = cc (h, at)
  delete_tested-HasFlz own name w (failed e) none h same fine p at = cc same
  delete_tested-HasFlz own name w (found q) (some x) h same fine p at = cc same
  delete_tested-HasFlz own name w (found q) none h same fine p at =
      delete_from_pod-HasFlz own name w q h fine p at

  delete_fetched-HasFlz :
      ReadsOwn k
      → (name : String) (w : k.World) (f : Fetched Pod) → pod_at k m ns name w ≡ f
      → (delete_of name w f).0 ≡ none
      → HasFlz false name (delete_of name w f).1
  unfolding delete_fetched
  delete_fetched-HasFlz own name w f h =
      delete_tested-HasFlz own name w f (k.err_read tested name (error_of f) w) h
        (own tested name (error_of f) w)

  -- A call that reports no error has done its work.
  pub add-HasFlz :
      (name : String) (w : k.World)
      → (add_lifecycle_finalizer k m ns flz name w).0 ≡ none
      → HasFlz true name (add_lifecycle_finalizer k m ns flz name w).1
  add-HasFlz name w = rw (add-eq name w) (add_fetched-HasFlz name w (pod_at k m ns name w) refl)

  pub delete-HasFlz :
      ReadsOwn k
      → (name : String) (w : k.World) → (delete_lifecycle_finalizer k m ns flz name w).0 ≡ none
      → HasFlz false name (delete_lifecycle_finalizer k m ns flz name w).1
  delete-HasFlz own name w =
      rw (delete-eq name w) (delete_fetched-HasFlz own name w (pod_at k m ns name w) refl)

  -- An effect that adds keeps the finalizer, one that deletes keeps its absence.
  pub HasFlz-added :
      (name n : String) (w w' : k.World)
      → Effect k m ns added name n w w'
      → HasFlz true n w
      → HasFlz true n w'
  HasFlz-added name n w w' (inl same) h p at = h p (sym same ∙ at)
  HasFlz-added name n w w' (inr (e, (q, before, after))) h p at = elim after [
    | inl stored ↦ ground (arith, at, stored, contains-append_self q.finalizers flz)
    | inr (_, _, (x, gone, _)) ↦ cc (gone, at)
  ]

  pub HasFlz-without :
      (name n : String) (w w' : k.World)
      → Effect k m ns (without flz) name n w w'
      → HasFlz false n w
      → HasFlz false n w'
  HasFlz-without name n w w' (inl same) h p at = h p (sym same ∙ at)
  HasFlz-without name n w w' (inr (e, (q, before, after))) h p at = elim after [
    | inl stored ↦ ground (arith, at, stored, contains-without_self flz q.finalizers)
    | inr (_, _, (x, gone, _)) ↦ cc (gone, at)
  ]
