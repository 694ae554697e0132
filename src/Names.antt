-- ===== src/Names.antt =====
-- Collection names: their validation (src/python/hypervec_server_engine.py) and the SQLite tables
-- that they stand for (src/python/hypervec_scalar_store.py). A name is a list of code points.
pub mod Tables
use Prim.Native.Char.{code}
use hyper_vector.Common.{
  ℕ, ◌≡◌, Bool, true, false, ◌&&◌, ◌||◌, String, List, [], ◌∷◌, leb, ltb, ◌==◌, length, not,
}
use hyper_vector.Common.Result.{Result, ok, value_error, refuse, ◌>>=◌, ◌>>◌}

-- The code points of a text. `String` has its own `[]` and `∷`.
abbrev pub codes : String → List ℕ
codes String.[] = []
codes (String.◌∷◌ c s) = code c ∷ codes s

-- [A-Za-z0-9]
unfoldable pub is_alnum : ℕ → Bool
is_alnum c = (leb b'a' c && leb c b'z') || (leb b'A' c && leb c b'Z') || (leb b'0' c && leb c b'9')

-- [A-Za-z0-9_-]
unfoldable pub is_name_char : ℕ → Bool
unfolding is_alnum
is_name_char c = is_alnum c || c == b'_' || c == b'-'

abbrev pub newline : ℕ
newline = 10

-- `[A-Za-z0-9_-]*$`: in Python `$` matches at the end, and before a newline that ends the text.
unfoldable pub matches_rest : List ℕ → Bool
unfolding is_name_char
matches_rest [] = true
matches_rest (c ∷ []) = is_name_char c || c == newline
matches_rest (c ∷ d ∷ s) = is_name_char c && matches_rest (d ∷ s)

-- re.match(r"^[A-Za-z0-9_-]+$", name)
unfoldable pub matches_name : List ℕ → Bool
unfolding matches_rest is_name_char
matches_name [] = false
matches_name (c ∷ s) = is_name_char c && matches_rest s

unfoldable pub validate_collection_name : List ℕ → Result (List ℕ)
unfolding matches_name
validate_collection_name name = do
  refuse (length name == 0 || ltb 255 (length name) || not (matches_name name)) value_error
  ok name
