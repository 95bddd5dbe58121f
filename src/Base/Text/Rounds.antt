-- ===== src/Base/Text/Rounds.antt =====
-- Splitting what was joined by commas.
use Prim.Native.Char.{Char}
use Prim.Native.String.{String, ◌++◌ as ◌<>◌}
use Prim.Native.String.append
use mathlib.Core.Path.{◌≡◌, refl, ap, sym, ◌∙◌}
use mathlib.Core.Logic.{◌≢◌}
use native.Mathlib.Omega.{arith}
use mathlib.Core.List.{append-nil, List, [], ◌∷◌, ◌++◌}
use resourceconsist.Base.Equality.{contains, string_eq}
use mathlib.Core.Bool.{true, ◌||◌}
use resourceconsist.Base.Text.{split, join, extend_head}

comma-append : (b : String) → split b',' ("," <> b) ≡ "" ∷ split b',' b
unfolding split
comma-append b =
    ap (split b',') (append.cons "," String.[] b ∙ ap (λ t. String.◌∷◌ "," t) (append.nil b))

-- A text has at least one part.
split-ne_nil : (s : String) → split b',' s ≢ []
unfolding split
split-ne_nil String.[] h = cc
split-ne_nil (String.◌∷◌ c s) h = ground (arith, split-ne_nil s)

extend_head-append :
    (c : Char) (ps qs : List String) → ps ≢ [] → extend_head c (ps ++ qs) ≡ extend_head c ps ++ qs
extend_head-append c [] qs h = absurd (h refl)
extend_head-append c (p ∷ ps) qs h = refl

split-append_step :
    (c : Char) (a t : String) (qs : List String)
    → split b',' t ≡ split b',' a ++ qs
    → split b',' (String.◌∷◌ c t) ≡ split b',' (String.◌∷◌ c a) ++ qs
unfolding split
split-append_step c a t qs h =
    ground (arith, h, split-ne_nil a, extend_head-append c (split b',' a) qs)

split-empty_append : (qs : List String) → "" ∷ qs ≡ split b',' "" ++ qs
unfolding split
split-empty_append qs = refl

-- A comma between two texts parts them.
pub split-append : (a b : String) → split b',' (a <> ("," <> b)) ≡ split b',' a ++ split b',' b
split-append String.[] b =
    ap (split b',') (append.nil ("," <> b)) ∙ comma-append b ∙ split-empty_append (split b',' b)
split-append (String.◌∷◌ c a) b =
    ap (split b',') (append.cons c a ("," <> b))
    ∙ split-append_step c a (a <> ("," <> b)) (split b',' b) (split-append a b)

-- The parts of texts, one after another.
pub parts : List String → List String
parts [] = []
parts (s ∷ ss) = split b',' s ++ parts ss

pub split-join : (s : String) (ss : List String) → split b',' (join "," (s ∷ ss)) ≡ parts (s ∷ ss)
unfolding join parts
split-join s [] = sym (append-nil (split b',' s))
split-join s (t ∷ ss) =
    split-append s (join "," (t ∷ ss)) ∙ ap (λ ps. split b',' s ++ ps) (split-join t ss)

pub contains-append :
    (xs ys : List String) (n : String) → contains (xs ++ ys) n ≡ (contains xs n || contains ys n)
contains-append [] ys n = refl
contains-append (x ∷ xs) ys n = ground (arith, contains-append xs ys n)

-- A text with no comma.
abbrev pub CommaFree : String → Type 0
CommaFree n = split b',' n ≡ n ∷ []

contains-parts :
    (ns : List String) (n : String)
    → CommaFree n
    → contains ns n ≡ true
    → contains (parts ns) n ≡ true
unfolding parts
contains-parts [] n free h = cc
contains-parts (x ∷ ns) n free h = elim (string_eq.dec x n) [
  | yes same ↦
      ground (arith, contains-append (split b',' x) (parts ns) n, same, free, ap (split b',') same)
  | no other ↦
      ground (arith, contains-append (split b',' x) (parts ns) n, contains-parts ns n free, other)
]

-- A text with no comma that is joined with others is found again.
pub contains-split-join :
    (ns : List String) (n : String)
    → CommaFree n
    → contains ns n ≡ true
    → contains (split b',' (join "," ns)) n ≡ true
contains-split-join [] n free h = cc
contains-split-join (x ∷ ns) n free h =
    ap (λ ps. contains ps n) (split-join x ns) ∙ contains-parts (x ∷ ns) n free h
