-- ===== src/Engine/Filter.antt =====
-- `_filter_match` of src/python/hypervec_server_engine.py: equality clauses joined by AND. The regular
-- expressions are read off as matchers on code points.
pub mod Clauses
pub mod Laws
use hyper_vector.Common.{
  ℕ, zero, suc, ◌+◌, ◌-◌, String, Bool, true, false, not, ◌&&◌, ◌||◌, Option, none, some, List, [],
  ◌∷◌, ◌++◌, map, ltb, leb, ◌==◌, if◌then◌else◌, length,
}
use hyper_vector.Common.Dict.{codes_eq}
use hyper_vector.Common.Result.{Result, ok, err, value_error, or_raise, ◌>>=◌}
use hyper_vector.Json.{Json, null, Fields, end, field}
use hyper_vector.Json.Text.{py_str, to_upper}
use hyper_vector.Names.{codes}
use hyper_vector.Bundle.Lines.{Text, is_space, strip}

-- How many code points at the front pass a test.
unfoldable pub span_length : (ℕ → Bool) → Text → ℕ
span_length p [] = 0
span_length p (c ∷ s) = let n = span_length p s in if p c then suc n else 0

unfoldable pub drop : ℕ → Text → Text
drop zero s = s
drop (suc n) [] = []
drop (suc n) (c ∷ s) = drop n s

unfoldable pub starts_and : Text → Bool
unfolding to_upper codes_eq
starts_and (a ∷ n ∷ d ∷ s) = codes_eq (to_upper (a ∷ n ∷ d ∷ [])) (codes "AND")
starts_and _ = false

-- The length of a match of `\s+and\s+` at the front, in either case; 0 if there is none.
unfoldable pub and_length : Text → ℕ
unfolding span_length is_space drop starts_and
and_length s =
    let before = span_length is_space s in
    let rest = drop before s in
    let after = span_length is_space (drop 3 rest) in
    if ltb 0 before && (starts_and rest && ltb 0 after) then before + 3 + after else 0

-- `re.split`: `skip` code points of a match are still to be passed over; `part` is the current part.
unfoldable pub split_and : Text → ℕ → Text → List Text
unfolding and_length
split_and [] skip part = part ∷ []
split_and (c ∷ s) (suc skip) part = split_and s skip part
split_and (c ∷ s) zero part =
    let cut = split_and s (and_length (c ∷ s) - 1) [] in
    let more = split_and s 0 (part ++ c ∷ []) in
    if ltb 0 (and_length (c ∷ s)) then part ∷ cut else more

abbrev pub is_letter : ℕ → Bool
is_letter c = (leb b'a' c && leb c b'z') || (leb b'A' c && leb c b'Z') || c == b'_'

abbrev pub is_word : ℕ → Bool
is_word c = is_letter c || (leb b'0' c && leb c b'9')

unfoldable pub take_text : ℕ → Text → Text
take_text zero s = []
take_text (suc n) [] = []
take_text (suc n) (c ∷ s) = c ∷ take_text n s

-- `q([^q]*)q` up to the end: the text in between.
unfoldable pub unquote : ℕ → Text → Option Text
unquote q [] = none
unquote q (c ∷ []) = if c == q then some [] else none
unquote q (c ∷ d ∷ s) =
    let rest = unquote q (d ∷ s) in
    if c == q then none else elim rest [ none ↦ none | some t ↦ some (c ∷ t) ]

unfoldable pub no_space : Text → Bool
unfolding is_space
no_space [] = true
no_space (c ∷ s) = not (is_space c) && no_space s

-- The three alternatives of the value, up to the end of the clause.
unfoldable pub value_of : Text → Option Text
unfolding unquote no_space
value_of [] = none
value_of (c ∷ s) =
    if c == 0x27
    then unquote 0x27 s
    else if c == 0x22
    then unquote 0x22 s
    else if no_space s
    then some (c ∷ s)
    else none

unfoldable pub last : Text → Option ℕ
last [] = none
last (c ∷ []) = some c
last (c ∷ d ∷ s) = last (d ∷ s)

-- After `==` come `spaces` and the value. If that fails, the matcher gives one space back: it then
-- begins the unquoted value.
unfoldable pub value_after : Text → Text → Option Text
unfolding value_of last
value_after spaces s = elim (value_of s) [
  | some v ↦ some v
  | none ↦ elim (last spaces) [ none ↦ none | some c ↦ if no_space s then some (c ∷ s) else none ]
]

unfoldable pub starts_equals : Text → Bool
starts_equals (a ∷ b ∷ s) = (a == b'=') && (b == b'=')
starts_equals _ = false

-- The full match of a clause: its key and its value.
unfoldable pub parse_clause : Text → Option (Text × Text)
unfolding span_length drop take_text is_space value_after starts_equals
parse_clause [] = none
parse_clause (c ∷ s) =
    let key_length = suc (span_length is_word s) in
    let key = take_text key_length (c ∷ s) in
    let rest = drop key_length (c ∷ s) in
    let after_key = drop (span_length is_space rest) rest in
    let value_part = drop 2 after_key in
    let n = span_length is_space value_part in
    if is_letter c && starts_equals after_key
    then (elim (value_after (take_text n value_part) (drop n value_part)) [
      | none ↦ none
      | some v ↦ some (key, v)
    ])
    else none

-- row.get(key), for a key given by its code points.
unfoldable pub get_codes : Fields → Text → Json
unfolding codes_eq
get_codes end k = null
get_codes (field j v d) k = let rest = get_codes d k in if codes_eq (codes j) k then v else rest

module _ (repr : Json → String) where
  -- The loop over the clauses ends at the first one that does not hold.
  unfoldable pub match_clauses : Fields → List Text → Result Bool
  unfolding parse_clause get_codes py_str
  match_clauses row [] = ok true
  match_clauses row (clause ∷ clauses) =
      let rest = match_clauses row clauses in
      elim (parse_clause (strip clause)) [
        | none ↦ err value_error
        | some (key, expected) ↦
            if codes_eq (codes (py_str repr (get_codes row key))) expected then rest else ok false
      ]

  unfoldable pub filter_match : Fields → Text → Result Bool
  unfolding match_clauses split_and strip
  filter_match row filter_expr = elim (strip filter_expr) [
    | [] ↦ ok true
    | c ∷ s ↦ match_clauses row (split_and (c ∷ s) 0 [])
  ]
