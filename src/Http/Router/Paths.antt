-- ===== src/Http/Router/Paths.antt =====
-- Paths as segments: a parameter of a path template is a segment that is not empty.
use Prim.Native.Char.{Char, code}
use Prim.Native.String
use Prim.Native.String.{String, [], ◌∷◌}
use mathlib.Core.Path.{◌≡◌, refl}
use mathlib.Core.Logic.{◌≢◌}
use mathlib.Core.List.{List}
use native.Mathlib.Omega.{arith}
use text.Mathlib.TextLemmas.{nil-append, cons-append}
use hyper_vector.Common.{◌==◌, if◌then◌else◌}

-- The segment that is being read gets one more character at its front.
abbrev longer : Char → List String → List String
longer c List.[] = List.[]
longer c (List.◌∷◌ s l) = List.◌∷◌ (c ∷ s) l

unfoldable pub split_slash : String → List String
split_slash [] = List.◌∷◌ [] List.[]
split_slash (c ∷ s) =
    let rest = split_slash s in if code c == b'/' then List.◌∷◌ [] rest else longer c rest

abbrev pub HasNoSlash : String → Type 0
HasNoSlash [] = Unit
HasNoSlash (c ∷ s) = (code c ≢ b'/') × HasNoSlash s

-- A segment that a slash ends.
pub split_slash-append :
    (a b : String)
    → HasNoSlash a
    → split_slash (String.◌++◌ a ("/" ∷ b)) ≡ List.◌∷◌ a (split_slash b)
unfolding split_slash
split_slash-append [] b h = rw nil-append refl
split_slash-append (c ∷ a) b (ne, h) =
    rw (cons-append, split_slash, split_slash-append a b h) (ground arith)
