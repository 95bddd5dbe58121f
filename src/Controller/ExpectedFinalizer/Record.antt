-- ===== src/Controller/ExpectedFinalizer/Record.antt =====
-- The record of names in the employer's annotation.
use resourceconsist.Base.{
  ℕ, String, ◌≡◌, ap, ◌∙◌, Bool, true, false, List, [], ◌∷◌, arith, contains, string_eq, ◌==◌,
  Bool-cases, inl, inr, Option, GoError, if_true, if_false,
}
use resourceconsist.Base.GoMap.{get-insert}
use resourceconsist.Base.Text.{split, join}
use resourceconsist.Base.Text.Rounds.{CommaFree, contains-split-join}
use resourceconsist.Controller.Client.{Client, MultiCluster, Employer}
use resourceconsist.Controller.KubeApi.{KubeApi, annotation, entries}
use resourceconsist.Controller.ExpectedFinalizer.{
  added_names, store_added_names, names_outside, set_annotation, expected_finalizer_added_anno_key,
}

pub contains-names_outside :
    (has : String → Bool) (ns : List String) (n : String)
    → has n ≡ false
    → contains ns n ≡ true
    → contains (names_outside has ns) n ≡ true
contains-names_outside has [] n out h = cc
contains-names_outside has (x ∷ ns) n out h = elim (string_eq.dec x n) [
  | yes same ↦ ground (arith, same, out, ap has same)
  | no other ↦ ground (arith, contains-names_outside has ns n out, other)
]

pub annotation-set_annotation :
    (key text : String) (e : Employer)
    → annotation key (set_annotation key text e).annotations ≡ text
annotation-set_annotation key text e =
    ground (arith, get-insert key key text (entries e.annotations))

module _ (k : Client) (api : KubeApi) (m : MultiCluster) (schedule : List ℕ → List ℕ) where
  -- A stored name that has no comma is in the record.
  pub added_names-store :
      (e : Employer) (names : List String) (w : k.World) (n : String)
      → CommaFree n
      → contains names n ≡ true
      → contains (added_names (store_added_names k api m schedule e names w).2) n ≡ true
  unfolding store_added_names added_names
  added_names-store e names w n free h =
      let text = join "," names in
      let found = contains-split-join names n free h in
      let old = annotation expected_finalizer_added_anno_key e.annotations in
      let shown = λ (r : Bool × Option GoError × Employer × k.World).
        contains (split b',' (annotation expected_finalizer_added_anno_key r.2.annotations)) n in
      elim (Bool-cases (old == text)) [
        | inl same ↦
            ap shown (if_true (old == text) _ _ same)
            ∙ ap (λ t. contains (split b',' t) n) (ground (arith, same))
            ∙ found
        | inr other ↦
            ap shown (if_false (old == text) _ _ other)
            ∙ ap (λ t. contains (split b',' t) n)
                (annotation-set_annotation expected_finalizer_added_anno_key text e)
            ∙ found
      ]
