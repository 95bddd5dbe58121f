-- ===== src/Utils/Batch/Calls.antt =====
-- What `SlowStartBatch` has done when it does not stop at the first failure, as all its callers ask.
use mathlib.Core.List.{Perm, Permᴰ}
use mathlib.Core.Logic.{∥∥₁_elim}
use native.Mathlib.Nat.{ℕ_set}
use mathlib.Core.Path.{subst, sym}
use resourceconsist.Utils.Batch.Order.{IsBatch-int_min_start}
use resourceconsist.Base.{
  ℕ, zero, suc, ◌+◌, ◌-◌, ◌*◌, ◌≤◌, ◌<◌, ◌≡◌, refl, ◌∙◌, List, [], ◌∷◌, ◌++◌, arith, ap, GoError,
  Option, none, some, length, length-append, false, ◌↔◌,
}
use resourceconsist.Utils.Batch.{
  int_min, indices, run_calls, with_error, slow_start_loop, slow_start_batch,
}
use resourceconsist.Utils.Batch.Order.{plan, plan-perm}
use resourceconsist.Utils.Batch.{received}
use resourceconsist.Base.{sym}

length-Permᴰ {ℓ} : {A : Type ℓ} {xs ys : List A} → Permᴰ xs ys → length xs ≡ length ys
length-Permᴰ Permᴰ.nil = refl
length-Permᴰ (Permᴰ.cons e p) = ap suc (length-Permᴰ p)
length-Permᴰ (Permᴰ.swap e f) = refl
length-Permᴰ (Permᴰ.trans p q) = length-Permᴰ p ∙ length-Permᴰ q

length-perm {ℓ} : {A : Type ℓ} {xs ys : List A} → Perm xs ys → length xs ≡ length ys
length-perm p = ∥∥₁_elim p (ℕ_set _ _) length-Permᴰ

with_error-append :
    (e : Option GoError) (es fs : List GoError) → with_error e (es ++ fs) ≡ with_error e es ++ fs
with_error-append none es fs = refl
with_error-append (some e) es fs = refl

length-indices : (i n : ℕ) → length (indices i n) ≡ n
unfolding indices
length-indices i zero = refl
length-indices i (suc n) = omega (arith, length-indices (i + 1) n)

received-none :
    (es fs : List GoError) (got last : Option GoError)
    → (last ≡ none) ↔ ((received got es ≡ none) × (fs ≡ []))
    → (last ≡ none) ↔ ((got ≡ none) × (es ++ fs ≡ []))
received-none [] fs got last h = h
received-none (e ∷ es) fs got last h = (λ p. cc (h.0 p).0, λ p. cc p.1)

module _ {ℓ} {S : Type ℓ} (call : ℕ → S → Option GoError × S) where
  -- The calls of `is`, one after another: their errors, and the state that they leave.
  unfoldable pub run : List ℕ → S → List GoError × S
  run [] s = ([], s)
  run (i ∷ is) s = let (e, s') = call i s in let (es, s'') = run is s' in (with_error e es, s'')

  run_calls-run :
      (got : Option GoError) (is : List ℕ) (s : S) → run_calls (λ i _. call i) got is s ≡ run is s
  unfolding run_calls run
  run_calls-run got [] s = refl
  run_calls-run got (i ∷ is) s = rw (run_calls-run got is (call i s).1)

  run-append :
      (is js : List ℕ) (s : S)
      → run (is ++ js) s ≡ ((run is s).0 ++ (run js (run is s).1).0, (run js (run is s).1).1)
  unfolding run
  run-append [] js s = refl
  run-append (i ∷ is) js s = rw (run-append is js (call i s).1) (
      ap (λ es. (es, (run js (run is (call i s).1).1).1))
        (with_error-append (call i s).0 (run is (call i s).1).0 _))

  length-run : (is : List ℕ) (s : S) → length (run is s).0 ≤ length is
  unfolding run
  length-run [] s = omega arith
  length-run (i ∷ is) s = ground (arith, length-run is (call i s).1)

  -- All the calls of `is` were made in this order from the state `s`, where `successes` calls had
  -- succeeded before and `got` was the last error seen.
  pub record Called (is : List ℕ) (s : S) (successes : ℕ) (got : Option GoError)
      (r : ℕ × Option GoError × S) : Type ℓ where
    pub state : r.2 ≡ (run is s).1
    pub count : r.0 + length (run is s).0 ≡ successes + length is
    pub error : (r.1 ≡ none) ↔ ((got ≡ none) × ((run is s).0 ≡ []))

  -- One batch `is`, then the rest `js`.
  Called-cons :
      (is js : List ℕ) (s : S) (successes : ℕ) (got : Option GoError) (r : ℕ × Option GoError × S)
      (b : ℕ)
      → length is ≡ b
      → Called js (run is s).1 (successes + (b - length (run is s).0)) (received got (run is s).0) r
      → Called (is ++ js) s successes got r
  Called-cons is js s successes got r b size rest = record {
    state = rest.state ∙ sym (ap (λ p. p.1) (run-append is js s));
    count = rw (run-append is js s) (
        omega (
          arith,
          rest.count,
          length-append (run is s).0 (run js (run is s).1).0,
          length-append is js,
          length-run is s,
        ));
    error = rw (run-append is js s) (received-none (run is s).0 _ got r.1 rest.error);
  }

  module _ (schedule : List ℕ → List ℕ) (fair : (is : List ℕ) → Perm (schedule is) is) where
    abbrev loop : ℕ → ℕ → ℕ → ℕ → ℕ → Option GoError → S → ℕ × Option GoError × S
    loop = slow_start_loop (λ i _. call i) schedule false

    loop-round :
        (f remaining successes index b : ℕ) (got : Option GoError) (s : S)
        → loop (suc f) remaining successes index (suc b) got s
          ≡ loop f
              (remaining - suc b)
              (successes + (suc b - length (run (schedule (indices index (suc b))) s).0))
              (index + suc b)
              (int_min (2 * suc b) (remaining - suc b))
              (received got (run (schedule (indices index (suc b))) s).0)
              (run (schedule (indices index (suc b))) s).1
    unfolding slow_start_loop
    loop-round f remaining successes index b got s =
        ap
          (λ (r : List GoError × S).
            loop f (remaining - suc b) (successes + (suc b - length r.0)) (index + suc b)
              (int_min (2 * suc b) (remaining - suc b)) (received got r.0) r.1)
          (run_calls-run got (schedule (indices index (suc b))) s)

    slow_start_loop-Called :
        (fuel remaining successes index b : ℕ) (got : Option GoError) (s : S)
        → Called
            (plan schedule fuel remaining index b)
            s
            successes
            got
            (loop fuel remaining successes index b got s)
    unfolding slow_start_loop plan run
    slow_start_loop-Called zero remaining successes index b got s = record {
      state = refl;
      count = refl;
      error = (λ h. (h, refl), λ h. h.0);
    }
    slow_start_loop-Called (suc f) remaining successes index zero got s = record {
      state = refl;
      count = refl;
      error = (λ h. (h, refl), λ h. h.0);
    }
    slow_start_loop-Called (suc f) remaining successes index (suc b) got s =
        subst (Called _ s successes got) (sym (loop-round f remaining successes index b got s)) (
          Called-cons (schedule (indices index (suc b))) _ s successes got _ (suc b)
            (length-perm (fair _) ∙ length-indices index (suc b))
            (slow_start_loop-Called f (remaining - suc b) _ (index + suc b) _ _ _))

    -- Each of the indices below `count` was called once, in some order; `order` is that order.
    pub record CalledEach (count : ℕ) (s : S) (r : ℕ × Option GoError × S) : Type ℓ where
      pub order : List ℕ
      pub each_once : Perm order (indices 0 count)
      pub state : r.2 ≡ (run order s).1
      pub successes : r.0 + length (run order s).0 ≡ count
      pub error : (r.1 ≡ none) ↔ ((run order s).0 ≡ [])

    -- Without short circuit and with a first batch that is not empty, `SlowStartBatch` calls the
    -- function once for each of the `count` indices, in some order, whatever fails: the state is
    -- the one that these calls leave, the number of successes is the number of calls without an error,
    -- and an error is returned exactly if a call returned one.
    pub slow_start_batch-CalledEach :
        (count initial : ℕ) (s : S)
        → 0 < initial
        → CalledEach count s (slow_start_batch (λ i _. call i) schedule false count initial s)
    unfolding slow_start_batch
    slow_start_batch-CalledEach count initial s h =
        let c = slow_start_loop-Called count count 0 0 (int_min count initial) none s in
        let perm : Perm (plan schedule count count 0 (int_min count initial)) (indices 0 count) =
          plan-perm schedule fair count count 0 (int_min count initial) (omega arith)
            (IsBatch-int_min_start count initial h) in
        record {
          order = plan schedule count count 0 (int_min count initial);
          each_once = perm;
          state = c.state;
          successes = omega (arith, c.count, length-perm perm, length-indices 0 count);
          error = (λ p. (c.error.0 p).1, λ p. c.error.1 (refl, p));
        }
