-- ===== src/Utils/Batch/Rules.antt =====
-- Proof rules for a batch in which every index is called once.
use mathlib.Core.List.{Mem, Perm, not-mem-nil, mem-cons}
use mathlib.Core.List.Perm
use mathlib.Core.Logic.Or
use mathlib.Core.Path.{subst, sym}
use resourceconsist.Base.{
  ℕ, zero, suc, ◌+◌, ◌<◌, ◌≡◌, refl, List, [], ◌∷◌, arith, GoError, Option, none, some,
}
use resourceconsist.Utils.Batch.{indices, with_error}
use resourceconsist.Utils.Batch.Calls.{run, CalledEach}

mem-indices : (i j n : ℕ) → j < n → Mem (i + j) (indices i n)
unfolding indices
mem-indices i j zero h = absurd (omega arith)
mem-indices i zero (suc n) h = mem-cons.1 (Or.inl (omega arith))
mem-indices i (suc j) (suc n) h =
    let later : Mem (i + suc j) (indices (i + 1) n) =
      subst (λ k. Mem k (indices (i + 1) n)) (omega arith)
        (mem-indices (i + 1) j n (omega arith)) in
    mem-cons.1 (Or.inr later)

mem-indices_zero : (j n : ℕ) → j < n → Mem j (indices 0 n)
mem-indices_zero j n h = subst (λ k. Mem k (indices 0 n)) (omega arith) (mem-indices 0 j n h)

with_error-eq_nil :
    (e : Option GoError) (es : List GoError) → with_error e es ≡ [] → (e ≡ none) × (es ≡ [])
with_error-eq_nil none es h = (refl, h)
with_error-eq_nil (some e) es h = cc

module _ {ℓ κ} {S : Type ℓ} (call : ℕ → S → Option GoError × S) (P : S → Type κ)
    (step : (i : ℕ) (s : S) → P s → P (call i s).1) where
  -- What every call keeps holds after the calls.
  pub run-keeps : (is : List ℕ) (s : S) → P s → P (run call is s).1
  unfolding run
  run-keeps [] s h = h
  run-keeps (i ∷ is) s h = run-keeps is (call i s).1 (step i s h)

  module _ (schedule : List ℕ → List ℕ) where
    -- After a batch, what every call keeps still holds, whatever failed.
    pub batch-keeps :
        (fair : (is : List ℕ) → Perm (schedule is) is) (count : ℕ) (s : S)
        (r : ℕ × Option GoError × S)
        → CalledEach call schedule fair count s r
        → P s
        → P r.2
    batch-keeps fair count s r c h = subst P (sym c.state) (run-keeps c.order s h)

module _ {ℓ κ} {S : Type ℓ} (call : ℕ → S → Option GoError × S) (Q : ℕ → S → Type κ)
    (gets : (i : ℕ) (s : S) → (call i s).0 ≡ none → Q i (call i s).1)
    (keeps : (i j : ℕ) (s : S) → Q i s → Q i (call j s).1)
    (prop : (i : ℕ) (s : S) → IsProp (Q i s)) where
  -- If no call failed, each call's effect is there at the end.
  pub run-establishes :
      (is : List ℕ) (s : S) (i : ℕ) → (run call is s).0 ≡ [] → Mem i is → Q i (run call is s).1
  unfolding run
  run-establishes [] s i h m = absurd (not-mem-nil m)
  run-establishes (j ∷ is) s i h m =
      let (fine, rest) = with_error-eq_nil (call j s).0 (run call is (call j s).1).0 h in
      Or.elim (prop i _) (mem-cons.0 m)
        (λ e. run-keeps call (Q i) (λ k t q. keeps i k t q) is (call j s).1 (rw e (gets j s fine)))
        (λ later. run-establishes is (call j s).1 i rest later)

  module _ (schedule : List ℕ → List ℕ) where
    -- After a batch that reported no error, each call's effect is there.
    pub batch-establishes :
        (fair : (is : List ℕ) → Perm (schedule is) is) (count : ℕ) (s : S)
        (r : ℕ × Option GoError × S)
        → CalledEach call schedule fair count s r
        → r.1 ≡ none
        → (i : ℕ) → i < count
        → Q i r.2
    batch-establishes fair count s r c fine i h = subst (Q i) (sym c.state) (
        run-establishes c.order s i (c.error.0 fine)
          ((Perm.mem_iff c.each_once).1 (mem-indices_zero i count h)))
