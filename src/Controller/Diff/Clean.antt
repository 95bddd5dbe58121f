-- ===== src/Controller/Diff/Clean.antt =====
-- When a diff keeps nothing: no element is expected.
use mathlib.Core.Path.{sym, subst, ap}
use mathlib.Core.Option.{some-injective}
use resourceconsist.Base.{
  String, ◌≡◌, ◌↔◌, refl, ◌∙◌, Bool, Option, none, some, or_else, List, [], ◌∷◌, arith, Outcome, ok,
  ==_refl, string_eq, Option-cases, inl, inr, >>=-eq-ok, length,
}
use resourceconsist.Base.GoMap.{GoMap, get, IsRange}
use resourceconsist.Controller.Diff.{ToCud, Buffers, place, compare_all, diff, by_id, new_buffers}
use resourceconsist.Controller.Diff.Buckets.{find_last, eq_nil_of_find, get-by_id}
use resourceconsist.Controller.Diff.Partition.{IsPartition, diff-IsPartition, get-visit_by_id}

module _ {ℓ} {E : Type ℓ} (get_id : E → String) where
  find_last-cons_ne_none : (x : E) (xs : List E) → find_last get_id (get_id x) (x ∷ xs) ≡ none → ⊥
  unfolding or_else
  find_last-cons_ne_none x xs h = ground (arith, ==_refl (get_id x))

  pub eq_nil_of_find_last : (xs : List E) → ((k : String) → find_last get_id k xs ≡ none) → xs ≡ []
  eq_nil_of_find_last [] h = refl
  eq_nil_of_find_last (x ∷ xs) h = absurd (find_last-cons_ne_none x xs (h (get_id x)))

module _ {ℓ} {E : Type ℓ} (equal : E → E → Outcome Bool) where
  place-compared :
      (o : Option E) (x c : E) (b b' : Buffers E)
      → place equal o x b ≡ ok b'
      → o ≡ some c
      → (v : Bool) × (equal x c ≡ ok v)
  unfolding place
  place-compared none x c b b' h f = cc
  place-compared (some d) x c b b' h f =
      let (v, compared, _) = >>=-eq-ok (equal x d) _ h in
      (v, ap (equal x) (some-injective c d (sym f)) ∙ compared)

  -- A loop that ended well has compared all that the two maps share.
  compare_all-compared :
      (current xs : GoMap E) (b b' : Buffers E)
      → compare_all equal current xs b ≡ ok b'
      → (k : String) (x c : E) → get k xs ≡ some x
      → get k current ≡ some c
      → (v : Bool) × (equal x c ≡ ok v)
  unfolding compare_all place get
  compare_all-compared current [] b b' h k x c e f = cc
  compare_all-compared current ((j, y) ∷ xs) b b' h k x c e f =
      let (b₁, placed, rest) = >>=-eq-ok (place equal (get j current) y b) _ h in
      elim (string_eq.dec j k) [
        | yes same ↦
            let y_is_x : y ≡ x = ground (arith, same, e) in
            subst (λ z. (v : Bool) × (equal z c ≡ ok v)) y_is_x
              (place-compared (get j current) y c b b₁ placed (ap (λ i. get i current) same ∙ f))
        | no other ↦ compare_all-compared current xs b₁ b' rest k x c (ground (arith, other, e)) f
      ]

  module _ (get_id : E → String) (visit_expected visit_current : GoMap E → GoMap E)
      (range_expected : IsRange visit_expected) (range_current : IsRange visit_current) where
    diff-compared :
        (expects currents : List E) (r : ToCud E)
        → diff get_id equal visit_expected visit_current expects currents ≡ ok r
        → (k : String) (x c : E) → find_last get_id k expects ≡ some x
        → find_last get_id k currents ≡ some c
        → (v : Bool) × (equal x c ≡ ok v)
    unfolding diff
    diff-compared expects currents r h k x c e f =
        let (b, compared, _) = >>=-eq-ok (compare_all equal _ _ _) _ h in
        compare_all-compared (by_id get_id currents) (visit_expected (by_id get_id expects))
          (new_buffers (length expects) (length currents)) b compared k x c
          (get-visit_by_id get_id visit_expected range_expected k expects ∙ e)
          (get-by_id get_id k currents ∙ f)

    -- The three lists that cover the expected elements are all empty exactly if none is expected.
    pub diff-expects_nil :
        (expects currents : List E) (r : ToCud E)
        → diff get_id equal visit_expected visit_current expects currents ≡ ok r
        → ((r.to_create ≡ []) × (r.to_update ≡ []) × (r.unchanged ≡ [])) ↔ (expects ≡ [])
    diff-expects_nil expects currents r h = (
      λ (c, u, s). eq_nil_of_find_last get_id expects (λ k. nothing k c u s),
      λ e. (
        eq_nil_of_find get_id r.to_create (λ k. p.creates k ∙ rw e refl),
        eq_nil_of_find get_id r.to_update (λ k. p.updates k ∙ rw e refl),
        eq_nil_of_find get_id r.unchanged (λ k. p.same k ∙ rw e refl),
      ),
    )
      where
        p : IsPartition get_id equal expects currents r
        p =
            diff-IsPartition get_id equal visit_expected visit_current range_expected range_current
              expects currents r h

        nothing :
            (k : String)
            → r.to_create ≡ []
            → r.to_update ≡ []
            → r.unchanged ≡ []
            → find_last get_id k expects ≡ none
        nothing k c u s = elim (Option-cases (find_last get_id k expects)) [
          | inl absent ↦ absent
          | inr (x, here) ↦ elim (Option-cases (find_last get_id k currents)) [
            | inl new ↦ ground (arith, c, here, new, p.creates k)
            | inr (y, there) ↦
                let (v, compared) = diff-compared expects currents r h k x y here there in
                ground (arith, u, s, here, there, compared, p.updates k, p.same k)
          ]
        ]
