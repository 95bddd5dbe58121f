-- ===== src/Utils/Batch/Order.antt =====
-- The indices that `SlowStartBatch` calls `fn` on, in their order, when it does not stop early.
use mathlib.Core.List.{Perm}
use mathlib.Core.List.Perm
use resourceconsist.Base.{
  ℕ, zero, suc, ◌+◌, ◌-◌, ◌*◌, ◌≤◌, ◌<◌, ◌≡◌, refl, List, [], ◌++◌, arith, ap,
}
use resourceconsist.Utils.Batch.{int_min, indices}
use resourceconsist.Base.{◌∙◌}

indices-append : (i m n : ℕ) → indices i m ++ indices (i + m) n ≡ indices i (m + n)
unfolding indices
indices-append i zero n = cc (e1, e2)
  where
    e1 : i + 0 ≡ i
    e1 = omega arith

    e2 : 0 + n ≡ n
    e2 = omega arith
indices-append i (suc m) n = cc (indices-append (i + 1) m n, e1, e2)
  where
    e1 : i + suc m ≡ (i + 1) + m
    e1 = omega arith

    e2 : suc m + n ≡ suc (m + n)
    e2 = omega arith

-- A batch is never larger than what remains, and is empty only if nothing remains.
abbrev pub IsBatch : ℕ → ℕ → Type 0
IsBatch remaining b = (b ≤ remaining) × (b ≡ 0 → remaining ≡ 0)

pub IsBatch-int_min : (remaining n : ℕ) → 0 < n → IsBatch remaining (int_min n remaining)
unfolding int_min
IsBatch-int_min remaining n h = ground arith

pub IsBatch-int_min_start : (remaining n : ℕ) → 0 < n → IsBatch remaining (int_min remaining n)
unfolding int_min
IsBatch-int_min_start remaining n h = ground arith

module _ (schedule : List ℕ → List ℕ) where
  -- The batches one after another, each in its scheduled order.
  unfoldable pub plan : ℕ → ℕ → ℕ → ℕ → List ℕ
  plan zero remaining index batch_size = []
  plan (suc fuel) remaining index zero = []
  plan (suc fuel) remaining index (suc b) =
      schedule (indices index (suc b))
      ++ plan fuel (remaining - suc b) (index + suc b) (int_min (2 * suc b) (remaining - suc b))

  module _ (fair : (is : List ℕ) → Perm (schedule is) is) where
    pub plan-perm :
        (fuel remaining index b : ℕ)
        → remaining ≤ fuel
        → IsBatch remaining b
        → Perm (plan fuel remaining index b) (indices index remaining)
    unfolding plan indices
    plan-perm zero zero index b enough batch = Perm.refl []
    plan-perm zero (suc r) index b enough batch = absurd (omega arith)
    plan-perm (suc f) remaining index zero enough batch = rw (batch.1 refl) (Perm.refl [])
    plan-perm (suc f) remaining index (suc b) enough batch =
        let rest = remaining - suc b in
        let split : indices index (suc b) ++ indices (index + suc b) rest
            ≡ indices index remaining =
          indices-append index (suc b) rest ∙ ap (indices index) (omega arith) in
        rw (← split) (
          Perm.append (fair _) (
            plan-perm f rest (index + suc b) (int_min (2 * suc b) rest) (omega arith)
              (IsBatch-int_min rest (2 * suc b) (omega arith))))
