-- ===== src/Controller/Employer/Clean.antt =====
-- When the clean finalizer comes and goes.
use resourceconsist.Base.{
  String, ◌≡◌, refl, ap, Bool, true, false, not, ◌||◌, none, some, List, [], ◌∷◌, ◌++◌,
  if◌then◌else◌, string_eq, contains, arith, Bool-cases, inl, inr,
}
use mathlib.Core.Path.{subst, sym, ◌∙◌}
use resourceconsist.Controller.Client.{
  Client, IsEmployerStore, IsWritten, Employer, found, MultiCluster, employer_context,
}
use resourceconsist.Controller.Finalizer.{without}
use resourceconsist.Controller.Finalizer.Effect.{contains-append_self, contains-without_self}
use resourceconsist.Controller.Employer.{
  clean_finalizer, generate_old_clean_flz, set_finalizers, other_finalizers, remaining_finalizers,
  ensure_employer_clean_flz, clean_fetched, clean_employer_clean_finalizer,
}

other_finalizers-without :
    (old : String) (fs : List String)
    → other_finalizers old fs
      ≡ (if contains fs clean_finalizer then none else some (without old fs))
unfolding other_finalizers
other_finalizers-without old [] = refl
other_finalizers-without old (f ∷ fs) = ground (arith, other_finalizers-without old fs)

remaining_finalizers-without :
    (old : String) (fs : List String)
    → remaining_finalizers old fs ≡ (
      without clean_finalizer (without old fs),
      not (contains fs old || contains fs clean_finalizer),
    )
unfolding remaining_finalizers
remaining_finalizers-without old [] = refl
remaining_finalizers-without old (f ∷ fs) = ground (arith, remaining_finalizers-without old fs)

contains-without_of_absent :
    (f g : String) (fs : List String) → contains fs g ≡ false → contains (without f fs) g ≡ false
contains-without_of_absent f g [] h = refl
contains-without_of_absent f g (x ∷ fs) h = ground (arith, contains-without_of_absent f g fs)

-- What `cleanEmployerCleanFinalizer` writes of an employer: the finalizers of the object that it was
-- given, without the clean finalizer and the old one.
abbrev pub cleaned : Employer → List String
cleaned e = without clean_finalizer (without (generate_old_clean_flz e) e.finalizers)

abbrev pub has_clean_flz : Employer → Bool
has_clean_flz e =
    contains e.finalizers (generate_old_clean_flz e) || contains e.finalizers clean_finalizer

-- The finalizers that `cleanEmployerCleanFinalizer` writes hold neither the clean finalizer nor the
-- old one.
pub cleaned-contains :
    (e : Employer)
    → (contains (cleaned e) clean_finalizer ≡ false)
      × (contains (cleaned e) (generate_old_clean_flz e) ≡ false)
cleaned-contains e = (
  contains-without_self clean_finalizer (without (generate_old_clean_flz e) e.finalizers),
  contains-without_of_absent clean_finalizer (generate_old_clean_flz e)
      (without (generate_old_clean_flz e) e.finalizers)
      (contains-without_self (generate_old_clean_flz e) e.finalizers),
)

module _ (k : Client) (m : MultiCluster) where
  -- `ensureEmployerCleanFlz` leaves an employer alone that is being deleted or that has the clean
  -- finalizer. Any other it updates, with the clean finalizer last and the old one gone.
  pub ensure_employer_clean_flz-update :
      (e : Employer) (w : k.World)
      → let e' =
          set_finalizers e
            (without (generate_old_clean_flz e) e.finalizers ++ clean_finalizer ∷ []) in
        ensure_employer_clean_flz k m e w ≡ (
          if e.deleting || contains e.finalizers clean_finalizer then (false, none, e, w) else (
            true,
            (k.update_employer (employer_context m) e' w).0,
            e',
            (k.update_employer (employer_context m) e' w).1,
          ))
  unfolding ensure_employer_clean_flz
  ensure_employer_clean_flz-update e w =
      ground (arith, other_finalizers-without (generate_old_clean_flz e) e.finalizers)

  pub ensure_employer_clean_flz_noop :
      (e : Employer) (w : k.World)
      → (e.deleting || contains e.finalizers clean_finalizer) ≡ true
      → ensure_employer_clean_flz k m e w ≡ (false, none, e, w)
  ensure_employer_clean_flz_noop e w h = rw h at (ensure_employer_clean_flz-update e w)

  -- A second `ensureEmployerCleanFlz`, on the object and the state that the first one left, finds
  -- nothing to do.
  pub ensure_employer_clean_flz_twice :
      (e : Employer) (w : k.World)
      → let r = ensure_employer_clean_flz k m e w in
        ensure_employer_clean_flz k m r.2 r.3 ≡ (false, none, r.2, r.3)
  ensure_employer_clean_flz_twice e w =
      elim (Bool-cases (e.deleting || contains e.finalizers clean_finalizer)) [
        | inl settled ↦
            let q = ensure_employer_clean_flz_noop e w settled in
            subst (λ r. ensure_employer_clean_flz k m r.2 r.3 ≡ (false, none, r.2, r.3)) (sym q) q
        | inr open_for_it ↦
            let q = rw open_for_it at (ensure_employer_clean_flz-update e w) in
            subst (λ r. ensure_employer_clean_flz k m r.2 r.3 ≡ (false, none, r.2, r.3)) (sym q)
              (ensure_employer_clean_flz_noop _ _ (has_clean e))
      ]
    where
      has_clean :
          (f : Employer)
          → (f.deleting
              || contains
                  (without (generate_old_clean_flz f) f.finalizers ++ clean_finalizer ∷ [])
                  clean_finalizer)
            ≡ true
      has_clean f = ground (
        arith,
        contains-append_self (without (generate_old_clean_flz f) f.finalizers) clean_finalizer,
      )

  clean_fetched-found :
      (e latest : Employer) (w : k.World)
      → clean_fetched k m e (found latest) w ≡ (
          if has_clean_flz e
          then k.update_employer (employer_context m) (set_finalizers latest (cleaned e)) w
          else (none, w))
  unfolding clean_fetched
  clean_fetched-found e latest w =
      ground (arith, remaining_finalizers-without (generate_old_clean_flz e) e.finalizers)

  clean-found :
      (e latest : Employer) (w : k.World)
      → k.get_employer (employer_context m) e.namespace e.name w ≡ found latest
      → has_clean_flz e ≡ true
      → clean_employer_clean_finalizer k m e w
        ≡ k.update_employer (employer_context m) (set_finalizers latest (cleaned e)) w
  unfolding clean_employer_clean_finalizer
  clean-found e latest w h had =
      ap (λ f. clean_fetched k m e f w) h ∙ clean_fetched-found e latest w ∙ rw had

  -- If the employer that `Reconcile` read has a clean finalizer, the employer still exists, and
  -- `cleanEmployerCleanFinalizer` returns no error, then the stored employer is the latest one with
  -- the finalizers of the employer that was read, less its two clean finalizers; or, where the latest
  -- one is being deleted and none of these finalizers is left, it may be gone.
  pub clean_employer_clean_finalizer-IsWritten :
      IsEmployerStore k
      → (e latest : Employer) (w : k.World)
      → k.get_employer (employer_context m) e.namespace e.name w ≡ found latest
      → has_clean_flz e ≡ true
      → (clean_employer_clean_finalizer k m e w).0 ≡ none
      → IsWritten latest.deleting (cleaned e) (set_finalizers latest (cleaned e)) (
          k.get_employer
            (employer_context m)
            e.namespace
            e.name
            (clean_employer_clean_finalizer k m e w).1)
  clean_employer_clean_finalizer-IsWritten store e latest w h had =
      rw (clean-found e latest w h had)
        (store.get-update_same (employer_context m) e.namespace e.name latest (cleaned e) w h)

  -- A finalizer that came onto the employer after `Reconcile` had read it is lost: under the
  -- conditions above, an employer that is stored afterwards does not have a finalizer that the
  -- employer that was read does not have, whether the latest one had it or not.
  pub clean_employer_clean_finalizer_lost :
      IsEmployerStore k
      → (e latest stored : Employer) (w : k.World) (flz : String)
      → k.get_employer (employer_context m) e.namespace e.name w ≡ found latest
      → has_clean_flz e ≡ true
      → (clean_employer_clean_finalizer k m e w).0 ≡ none
      → contains e.finalizers flz ≡ false
      → k.get_employer
          (employer_context m)
          e.namespace
          e.name
          (clean_employer_clean_finalizer k m e w).1
        ≡ found stored
      → contains stored.finalizers flz ≡ false
  clean_employer_clean_finalizer_lost store e latest stored w flz h had fine absent there =
      elim (clean_employer_clean_finalizer-IsWritten store e latest w h had fine) [
        | inl written ↦
            let same : set_finalizers latest (cleaned e) ≡ stored = cc (written, there) in
            ap (λ (s : Employer). contains s.finalizers flz) (sym same)
            ∙ contains-without_of_absent clean_finalizer flz
                (without (generate_old_clean_flz e) e.finalizers)
                (contains-without_of_absent (generate_old_clean_flz e) flz e.finalizers absent)
        | inr (_, _, (x, gone, _)) ↦ cc (gone, there)
      ]
