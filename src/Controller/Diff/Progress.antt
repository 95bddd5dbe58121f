-- ===== src/Controller/Diff/Progress.antt =====
-- A diff ends with a result, or in the way in which a comparison ended: it never writes past a
-- slice that it has allocated.
use resourceconsist.Base.{
  ◌+◌, ◌≤◌, String, ◌≡◌, ◌∙◌, Bool, some, List, arith, Outcome, ok, err, panic, ◌>>=◌, length, IsOk,
  sym,
}
use resourceconsist.Base.GoMap.{GoMap, IsRange, length-le_of_keys}
use resourceconsist.Base.Slice.{Slice, make}
use resourceconsist.Controller.Diff.{ToCud, Buffers, new_buffers, by_id, compare_all, diff}
use resourceconsist.Controller.Diff.Buckets.{find_last, get-by_id, by_id-NodupKeys, length-by_id}
use resourceconsist.Controller.Diff.Bounds.{
  length-shared_le, Compared, Ends, HasRoom, compare_all-Ends, collect_deleted-IsOk,
}
use resourceconsist.Controller.Diff.Partition.{get-visit_by_id, visit_by_id-NodupKeys}
use resourceconsist.Base.{sym}

module _ {ℓ} {E : Type ℓ} (get_id : E → String) (visit : GoMap E → GoMap E)
    (range : IsRange visit) where
  length-visit_by_id : (xs : List E) → length (visit (by_id get_id xs)) ≤ length xs
  length-visit_by_id xs = omega (
    arith,
    length-by_id get_id xs,
    length-le_of_keys (visit (by_id get_id xs)) (by_id get_id xs)
        (visit_by_id-NodupKeys get_id visit range xs)
        (λ k h. ground (arith, range.get-visit k (by_id get_id xs) (by_id-NodupKeys get_id xs))),
  )

module _ {ℓ} {E : Type ℓ} (get_id : E → String) (equal : E → E → Outcome Bool) where
  -- The comparison of the last expected and the last current element with one id ended in `o`.
  pub record EqualEnds (expects currents : List E) (o : Outcome Bool) : Type ℓ where
    pub key : String
    pub expect : E
    pub now : E
    pub expected : find_last get_id key expects ≡ some expect
    pub current : find_last get_id key currents ≡ some now
    pub outcome : equal expect now ≡ o

  -- A diff ends with lists, or in the error or panic of such a comparison.
  abbrev pub DiffEnds : List E → List E → Outcome (ToCud E) → Type ℓ
  DiffEnds expects currents (ok r) = Unit
  DiffEnds expects currents (err e) = EqualEnds expects currents (err e)
  DiffEnds expects currents panic = EqualEnds expects currents panic

  module _ (visit_expected visit_current : GoMap E → GoMap E)
      (range_expected : IsRange visit_expected) (range_current : IsRange visit_current)
      (expects currents : List E) where
    start-HasRoom :
        HasRoom
          (by_id get_id currents)
          (visit_expected (by_id get_id expects))
          (new_buffers (length expects) (length currents))
    start-HasRoom =
        let within =
          length-shared_le (by_id get_id currents) (visit_expected (by_id get_id expects))
            (visit_by_id-NodupKeys get_id visit_expected range_expected expects) in
        omega (
          arith,
          length-visit_by_id get_id visit_expected range_expected expects,
          length-by_id get_id currents,
          within,
        )

    Compared-EqualEnds :
        (o : Outcome Bool)
        → Compared equal (by_id get_id currents) (visit_expected (by_id get_id expects)) o
        → EqualEnds expects currents o
    Compared-EqualEnds o c = record {
      key = c.key;
      expect = c.expect;
      now = c.now;
      expected =
          sym (get-visit_by_id get_id visit_expected range_expected c.key expects) ∙ c.get-expect;
      current = sym (get-by_id get_id c.key currents) ∙ c.get-now;
      outcome = c.outcome;
    }

    IsOk-DiffEnds : (m : Outcome (ToCud E)) → IsOk m → DiffEnds expects currents m
    IsOk-DiffEnds (ok r) h = tt
    IsOk-DiffEnds (err e) h = absurd h
    IsOk-DiffEnds panic h = absurd h

    DiffEnds-bind :
        (m : Outcome (Buffers E)) (f : Buffers E → Outcome (ToCud E))
        → Ends equal (by_id get_id currents) (visit_expected (by_id get_id expects)) m
        → ((b : Buffers E) → IsOk (f b))
        → DiffEnds expects currents (m >>= f)
    DiffEnds-bind (ok b) f h k = IsOk-DiffEnds (f b) (k b)
    DiffEnds-bind (err e) f h k = Compared-EqualEnds (err e) h
    DiffEnds-bind panic f h k = Compared-EqualEnds panic h

    IsOk-bind_ok {κ} :
        {B : Type κ} (m : Outcome (Slice E)) (f : Slice E → B) → IsOk m → IsOk (m >>= λ d. ok (f d))
    IsOk-bind_ok (ok d) f h = tt
    IsOk-bind_ok (err e) f h = absurd h
    IsOk-bind_ok panic f h = absurd h

    -- A diff writes inside the slices that it allocated: it returns lists, or it ends in the error or
    -- the panic in which the comparison of an expected and a current element with one id ended.
    pub diff-DiffEnds :
        DiffEnds expects currents (diff get_id equal visit_expected visit_current expects currents)
    unfolding diff
    diff-DiffEnds =
        DiffEnds-bind
          (compare_all equal (by_id get_id currents) (visit_expected (by_id get_id expects))
            (new_buffers (length expects) (length currents)))
          _
          (compare_all-Ends equal (by_id get_id currents) (visit_expected (by_id get_id expects))
            (new_buffers (length expects) (length currents))
            (visit_by_id-NodupKeys get_id visit_expected range_expected expects) start-HasRoom)
          λ b. IsOk-bind_ok _ _ (
            collect_deleted-IsOk (by_id get_id expects) (visit_current (by_id get_id currents))
              (make (length currents)) deletes_room)
      where
        deletes_room :
            length (make {A = E} (length currents)).items
              + length (visit_current (by_id get_id currents))
            ≤ (make {A = E} (length currents)).room
        deletes_room = omega (arith, length-visit_by_id get_id visit_current range_current currents)
