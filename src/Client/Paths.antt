-- ===== src/Client/Paths.antt =====
-- The paths of the client's requests, as the router splits them.
use Prim.Native.String
use Prim.Native.String.{String}
use hyper_vector.Common.{◌≡◌, refl, ap, ◌∙◌, [], ◌∷◌, arith}
use text.Mathlib.TextLemmas.{nil-append, cons-append, append_assoc}
use hyper_vector.Http.Router.Paths.{split_slash, split_slash-append, HasNoSlash}
use hyper_vector.Client.Rest.{path_of}

slash-append : (s : String) → String.◌++◌ "/" s ≡ String.◌∷◌ "/" s
slash-append s = cons-append "/" "" s ∙ ap (String.◌∷◌ "/") (nil-append s)

split-slash : (s : String) → split_slash (String.◌∷◌ "/" s) ≡ "" ∷ split_slash s
unfolding split_slash
split-slash s = refl

prefix-append :
    (s : String)
    → String.◌++◌ "/collections/" s ≡ String.◌∷◌ "/" (String.◌++◌ "collections" (String.◌∷◌ "/" s))
prefix-append s =
    append_assoc "/collections" "/" s
    ∙ cons-append "/" "collections" (String.◌++◌ "/" s)
    ∙ ap (λ t. String.◌∷◌ "/" (String.◌++◌ "collections" t)) (slash-append s)

-- What follows the prefix of all collections.
pub split-prefix :
    (s : String) → split_slash (String.◌++◌ "/collections/" s) ≡ "" ∷ "collections" ∷ split_slash s
split-prefix s =
    ap split_slash (prefix-append s)
    ∙ split-slash (String.◌++◌ "collections" (String.◌∷◌ "/" s))
    ∙ ap (◌∷◌ "") (split_slash-append "collections" s (omega arith))

-- A path that names a collection ends in the segments of its action.
pub split-path_of :
    (name action : String)
    → HasNoSlash name
    → split_slash (path_of name action) ≡ "" ∷ "collections" ∷ name ∷ split_slash action
unfolding path_of
split-path_of name action h =
    split-prefix (String.◌++◌ name (String.◌++◌ "/" action))
    ∙ ap (λ t. "" ∷ "collections" ∷ split_slash (String.◌++◌ name t)) (slash-append action)
    ∙ ap (λ l. "" ∷ "collections" ∷ l) (split_slash-append name action h)

pub split-one : (name : String) → HasNoSlash name → split_slash name ≡ name ∷ []
unfolding split_slash
split-one String.[] h = refl
split-one (String.◌∷◌ c s) (ne, h) = rw (split-one s h) (ground arith)
