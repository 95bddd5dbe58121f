-- ===== src/Base/Slice.antt =====
-- `xs := make([]T, room)` with an index that counts the elements written so far. A write at an
-- index that is not below `room` panics; `xs[:idx]` is `items`.
use Prim.Native.Nat.{ℕ}
use mathlib.Core.List.{List, [], ◌∷◌, ◌++◌}
use resourceconsist.Base.Equality.{if◌then◌else◌}
use resourceconsist.Base.Numbers.{ltb}
use resourceconsist.Base.Lists.{length}
use resourceconsist.Base.Results.{Outcome, ok, panic}

pub record Slice {ℓ} (A : Type ℓ) : Type ℓ where
  pub room : ℕ
  pub items : List A

abbrev pub make {ℓ} : {A : Type ℓ} → ℕ → Slice A
make n = record { room = n; items = [] }

-- `xs[idx] = x; idx++`
abbrev pub write {ℓ} : {A : Type ℓ} → Slice A → A → Outcome (Slice A)
write s x =
    if ltb (length s.items) s.room then ok (record s { items = s.items ++ x ∷ [] }) else panic
