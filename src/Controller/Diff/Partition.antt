-- ===== src/Controller/Diff/Partition.antt =====
-- A diff splits the expected and the current elements into its four lists.
use resourceconsist.Base.{
  String, ◌≡◌, ◌∙◌, Bool, Option, none, some, List, arith, Outcome, ok, >>=-eq-ok, if◌then◌else◌,
}
use resourceconsist.Base.GoMap.{GoMap, get, NodupKeys, IsRange}
use resourceconsist.Controller.Diff.{ToCud, by_id, compare_all, collect_deleted, diff}
use resourceconsist.Controller.Diff.Buckets.{
  find, find_last, NodupIds, get-by_id, by_id-NodupKeys, by_id-IsKeyed, IsKeyed, picked,
  find-picked, picked-NodupIds,
}
use resourceconsist.Controller.Diff.Loops.{
  is_missing, is_changed, is_same, compare_all-Sorted, collect_deleted-picked,
}
use resourceconsist.Controller.Diff.{new_buffers}
use resourceconsist.Base.{length}
use resourceconsist.Controller.Diff.{make}

module _ {ℓ} {E : Type ℓ} (get_id : E → String) where
  -- `select pick mine other`: the element of `mine`, if it goes to the bucket `pick`.
  abbrev pub select : (E → Option E → Bool) → Option E → Option E → Option E
  select pick none other = none
  select pick (some x) other = if pick x other then some x else none

  module _ (visit : GoMap E → GoMap E) (range : IsRange visit) where
    pub visit_by_id-NodupKeys : (xs : List E) → NodupKeys (visit (by_id get_id xs))
    visit_by_id-NodupKeys xs = range.visit-NodupKeys _ (by_id-NodupKeys get_id xs)

    pub get-visit_by_id :
        (k : String) (xs : List E) → get k (visit (by_id get_id xs)) ≡ find_last get_id k xs
    get-visit_by_id k xs = range.get-visit k _ (by_id-NodupKeys get_id xs) ∙ get-by_id get_id k xs

    visit_by_id-IsKeyed : (xs : List E) → IsKeyed get_id (visit (by_id get_id xs))
    visit_by_id-IsKeyed xs k x h =
        by_id-IsKeyed get_id xs k x (rw (range.get-visit k _ (by_id-NodupKeys get_id xs)) at h)

    -- One bucket of a diff: its elements have distinct ids, and are those that `pick` selects.
    pub find-bucket :
        (pick : E → Option E → Bool) (k : String) (mine other : List E)
        → find get_id k (picked pick (by_id get_id other) (visit (by_id get_id mine)))
          ≡ select pick (find_last get_id k mine) (find_last get_id k other)
    find-bucket pick k mine other =
        find-picked get_id pick _ k _ (visit_by_id-NodupKeys mine) (visit_by_id-IsKeyed mine)
        ∙ ground (arith, get-visit_by_id k mine, get-by_id get_id k other)

    pub bucket-NodupIds :
        (pick : E → Option E → Bool) (mine other : List E)
        → NodupIds get_id (picked pick (by_id get_id other) (visit (by_id get_id mine)))
    bucket-NodupIds pick mine other =
        picked-NodupIds get_id pick _ _ (visit_by_id-NodupKeys mine) (visit_by_id-IsKeyed mine)

module _ {ℓ} {E : Type ℓ} (get_id : E → String) (equal : E → E → Outcome Bool) where
  -- The four lists, told by looking an id `k` up; `find_last` is the element that an input holds
  -- under an id, which of several is the last.
  pub record IsPartition (expects currents : List E) (r : ToCud E) : Type ℓ where
    pub creates :
        (k : String)
        → find get_id k r.to_create
          ≡ select get_id is_missing (find_last get_id k expects) (find_last get_id k currents)
    pub updates :
        (k : String)
        → find get_id k r.to_update
          ≡ select get_id
              (is_changed equal)
              (find_last get_id k expects)
              (find_last get_id k currents)
    pub deletes :
        (k : String)
        → find get_id k r.to_delete
          ≡ select get_id is_missing (find_last get_id k currents) (find_last get_id k expects)
    pub same :
        (k : String)
        → find get_id k r.unchanged
          ≡ select get_id (is_same equal) (find_last get_id k expects) (find_last get_id k currents)
    pub creates-NodupIds : NodupIds get_id r.to_create
    pub updates-NodupIds : NodupIds get_id r.to_update
    pub deletes-NodupIds : NodupIds get_id r.to_delete
    pub same-NodupIds : NodupIds get_id r.unchanged

  module _ (visit_expected visit_current : GoMap E → GoMap E)
      (range_expected : IsRange visit_expected) (range_current : IsRange visit_current) where
    -- The lists of a diff as buckets of the two maps.
    pub record Lists (expects currents : List E) (r : ToCud E) : Type ℓ where
      pub creates :
          r.to_create
          ≡ picked is_missing (by_id get_id currents) (visit_expected (by_id get_id expects))
      pub updates :
          r.to_update
          ≡ picked
              (is_changed equal)
              (by_id get_id currents)
              (visit_expected (by_id get_id expects))
      pub deletes :
          r.to_delete
          ≡ picked is_missing (by_id get_id expects) (visit_current (by_id get_id currents))
      pub same :
          r.unchanged
          ≡ picked (is_same equal) (by_id get_id currents) (visit_expected (by_id get_id expects))

    pub diff-Lists :
        (expects currents : List E) (r : ToCud E)
        → diff get_id equal visit_expected visit_current expects currents ≡ ok r
        → Lists expects currents r
    unfolding diff
    diff-Lists expects currents r h =
        let (b, compared, rest) = >>=-eq-ok (compare_all equal _ _ _) _ h in
        let (d, collected, done) = >>=-eq-ok (collect_deleted _ _ _) _ rest in
        let s =
          compare_all-Sorted equal (by_id get_id currents) (visit_expected (by_id get_id expects))
            (new_buffers (length expects) (length currents)) b compared in
        let c =
          collect_deleted-picked (by_id get_id expects) (visit_current (by_id get_id currents))
            (make (length currents)) d collected in
        record {
          creates = ground (arith, s.creates);
          updates = ground (arith, s.updates);
          deletes = ground (arith, c);
          same = ground (arith, s.same);
        }

    -- For every order in which the two maps are ranged over, a diff that returns lists has split the
    -- elements by id: an expected element without a current one is to be created, one whose current
    -- element differs is to be updated, one whose current element is equal is unchanged, and a current
    -- element without an expected one is to be deleted. Of several elements with one id the last
    -- counts. No list holds an id twice, and each list holds nothing else.
    pub diff-IsPartition :
        (expects currents : List E) (r : ToCud E)
        → diff get_id equal visit_expected visit_current expects currents ≡ ok r
        → IsPartition expects currents r
    diff-IsPartition expects currents r h =
        let l = diff-Lists expects currents r h in
        record {
          creates = λ k.
              rw l.creates
                (find-bucket get_id visit_expected range_expected is_missing k expects currents);
          updates = λ k. rw l.updates (
              find-bucket get_id visit_expected range_expected (is_changed equal) k expects
                currents);
          deletes = λ k.
              rw l.deletes
                (find-bucket get_id visit_current range_current is_missing k currents expects);
          same = λ k.
              rw l.same (
                find-bucket get_id visit_expected range_expected (is_same equal) k expects
                  currents);
          creates-NodupIds =
              rw l.creates
                (bucket-NodupIds get_id visit_expected range_expected is_missing expects currents);
          updates-NodupIds = rw l.updates (
              bucket-NodupIds get_id visit_expected range_expected (is_changed equal) expects
                currents);
          deletes-NodupIds =
              rw l.deletes
                (bucket-NodupIds get_id visit_current range_current is_missing currents expects);
          same-NodupIds = rw l.same (
              bucket-NodupIds get_id visit_expected range_expected (is_same equal) expects
                currents);
        }
