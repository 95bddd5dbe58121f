-- ===== src/Controller/Diff/Converge.antt =====
-- Once a backend holds what a diff asked for, the next diff asks for nothing.
use resourceconsist.Base.{
  String, ◌≡◌, ◌∙◌, Bool, true, Option, none, or_else, List, [], arith, Outcome, ok, if◌then◌else◌,
  is_none, Option-cases, inl, inr, string_eq, Option-cases, inl, inr,
}
use resourceconsist.Base.GoMap.{GoMap, IsRange}
use resourceconsist.Controller.Diff.{ToCud, diff}
use resourceconsist.Controller.Diff.Buckets.{find, find_last, eq_nil_of_find}
use resourceconsist.Controller.Diff.Loops.{is_missing, is_changed}
use resourceconsist.Controller.Diff.Partition.{select, IsPartition, diff-IsPartition}

module _ {ℓ} {E : Type ℓ} (get_id : E → String) where
  -- What a backend holds under an id after all that a diff asks for was done, from what it held.
  abbrev pub after_sync : ToCud E → String → Option E → Option E
  after_sync r k old = or_else (find get_id k r.to_create) (
      or_else (find get_id k r.to_update)
        (if is_none (find get_id k r.to_delete) then old else none))

  -- Nothing is left to create, to update or to delete.
  pub record IsSettled (r : ToCud E) : Type ℓ where
    pub creates : r.to_create ≡ []
    pub updates : r.to_update ≡ []
    pub deletes : r.to_delete ≡ []

  module _ (equal : E → E → Outcome Bool) (visit_expected visit_current : GoMap E → GoMap E)
      (range_expected : IsRange visit_expected) (range_current : IsRange visit_current) where
    -- If every element equals itself, and the current elements are what a backend holds once it has
    -- created, updated and deleted all that a diff asked for, then the next diff, if it returns lists,
    -- asks for nothing to be created, updated or deleted.
    pub diff-IsSettled :
        (expects currents after : List E) (r next : ToCud E)
        → ((x : E) → equal x x ≡ ok true)
        → diff get_id equal visit_expected visit_current expects currents ≡ ok r
        → ((k : String) → find_last get_id k after ≡ after_sync r k (find_last get_id k currents))
        → diff get_id equal visit_expected visit_current expects after ≡ ok next
        → IsSettled next
    unfolding or_else
    diff-IsSettled expects currents after r next same first done second = record {
      creates = eq_nil_of_find get_id next.to_create λ k. q.creates k ∙ nothing_missing k;
      updates = eq_nil_of_find get_id next.to_update λ k. q.updates k ∙ nothing_changed k;
      deletes = eq_nil_of_find get_id next.to_delete λ k. q.deletes k ∙ nothing_left k;
    }
      where
        p : IsPartition get_id equal expects currents r
        p =
            diff-IsPartition get_id equal visit_expected visit_current range_expected range_current
              expects currents r first

        q : IsPartition get_id equal expects after next
        q =
            diff-IsPartition get_id equal visit_expected visit_current range_expected range_current
              expects after next second

        nothing_missing :
            (k : String)
            → select get_id is_missing (find_last get_id k expects) (find_last get_id k after)
              ≡ none
        nothing_missing k = ground (arith, done k, p.creates k, p.updates k, p.deletes k)

        nothing_changed :
            (k : String)
            → select get_id
                (is_changed equal)
                (find_last get_id k expects)
                (find_last get_id k after)
              ≡ none
        nothing_changed k = elim (Option-cases (find_last get_id k expects)) [
          | inl absent ↦ ground (arith, absent)
          | inr (x, here) ↦
              ground (arith, here, same x, done k, p.creates k, p.updates k, p.deletes k)
        ]

        nothing_left :
            (k : String)
            → select get_id is_missing (find_last get_id k after) (find_last get_id k expects)
              ≡ none
        nothing_left k = ground (arith, done k, p.creates k, p.updates k, p.deletes k)
