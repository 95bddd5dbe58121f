-- ===== src/Base/Text.antt =====
-- `strings.Split` with a one-character separator, and `strings.Join`.
pub mod Rounds
use Prim.Native.Char.{Char, code}
use Prim.Native.Nat.{ℕ, compare, Ordering}
use Prim.Native.String.{String, ◌++◌ as ◌<>◌}
use mathlib.Core.Path.{◌≡◌, refl}
use mathlib.Core.List.{List, [], ◌∷◌}

-- The character `c` put in front of the first part.
abbrev extend_head : Char → List String → List String
extend_head c [] = (String.◌∷◌ c "") ∷ []
extend_head c (part ∷ parts) = (String.◌∷◌ c part) ∷ parts

-- `strings.Split(s, sep)`, where `sep` has the code `sep`. The empty text has one part, itself.
unfoldable pub split : ℕ → String → List String
split sep String.[] = "" ∷ []
split sep (String.◌∷◌ c s) =
    let parts = split sep s in
    elim (compare (code c) sep) [ Ordering.eq ↦ "" ∷ parts | _ ↦ extend_head c parts ]

-- `strings.Join(parts, sep)`
unfoldable pub join : String → List String → String
join sep [] = ""
join sep (part ∷ []) = part
join sep (part ∷ next ∷ parts) = part <> (sep <> join sep (next ∷ parts))

split_two : split b'#' "pod-1#cluster" ≡ "pod-1" ∷ "cluster" ∷ []
unfolding split
split_two = refl

split_empty : split b',' "" ≡ "" ∷ []
unfolding split
split_empty = refl

join_two : join "," ("a" ∷ "b" ∷ []) ≡ "a,b"
unfolding join
join_two = refl
