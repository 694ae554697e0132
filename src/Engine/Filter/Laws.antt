-- ===== src/Engine/Filter/Laws.antt =====
-- Which rows a filter that is written as the documentation shows it lets through
-- (src/python/hypervec_server_engine.py).
use hyper_vector.Common.{
  ℕ, suc, ◌≡◌, refl, ap, ◌∙◌, Bool, true, false, ◌&&◌, none, some, Option, List, [], ◌∷◌, ◌++◌, map,
  All, String, if◌then◌else◌, length,
}
use hyper_vector.Common.Result.{ok}
use hyper_vector.Common.Dict.{codes_eq}
use hyper_vector.Json.{Json, Fields}
use hyper_vector.Json.Text.{py_str}
use hyper_vector.Names.{codes}
use hyper_vector.Bundle.Lines.{Text, is_space, strip, lstrip}
use hyper_vector.Engine.Filter.{
  filter_match, match_clauses, split_and, span_length, drop, take_text, unquote, value_after,
  value_of, starts_equals, parse_clause, get_codes, is_letter, is_word,
}
use hyper_vector.Engine.Filter.Clauses.{
  IsKey, IsValue, Clauses, AreClauses, quoted, spaced_equals, clause_text, joined, split-joined,
  strip-IsEnclosed, clause-IsEnclosed, joined-IsEnclosed,
}

span_length-append :
    (p : ℕ → Bool) (s : Text) (c : ℕ) (u : Text)
    → All (λ x. p x ≡ true) s
    → p c ≡ false
    → span_length p (s ++ c ∷ u) ≡ length s
unfolding span_length
span_length-append p [] c u h e = rw e refl
span_length-append p (x ∷ s) c u h e = rw (h.0, span_length-append p s c u h.1 e) refl

take_text-append : (s u : Text) → take_text (length s) (s ++ u) ≡ s
unfolding take_text
take_text-append [] u = refl
take_text-append (x ∷ s) u = ap (λ r. x ∷ r) (take_text-append s u)

drop-append : (s u : Text) → drop (length s) (s ++ u) ≡ u
unfolding drop
drop-append [] u = refl
drop-append (x ∷ s) u = drop-append s u

unquote-quoted : (v : Text) → IsValue v → unquote b'"' (v ++ b'"' ∷ []) ≡ some v
unfolding unquote
unquote-quoted [] h = refl
unquote-quoted (x ∷ []) h = rw h.0.1 refl
unquote-quoted (x ∷ y ∷ v) h = rw (h.0.1, unquote-quoted (y ∷ v) h.1) refl

value_of-quoted : (v : Text) → IsValue v → value_of (quoted v) ≡ some v
unfolding value_of
value_of-quoted v h = unquote-quoted v h

value_after-quoted : (spaces v : Text) → IsValue v → value_after spaces (quoted v) ≡ some v
unfolding value_after
value_after-quoted spaces v h = rw (value_after, value_of-quoted v h) refl

-- A clause, once its key is split off.
abbrev clause_of : ℕ → Text → Text → Option (Text × Text)
clause_of c key rest =
    let after_key = drop (span_length is_space rest) rest in
    let value_part = drop 2 after_key in
    let n = span_length is_space value_part in
    if is_letter c && starts_equals after_key
    then (elim (value_after (take_text n value_part) (drop n value_part)) [
      | none ↦ none
      | some v ↦ some (key, v)
    ])
    else none

clause_of-quoted :
    (c : ℕ) (key v : Text)
    → is_letter c ≡ true
    → IsValue v
    → clause_of c key (spaced_equals (quoted v)) ≡ some (key, v)
unfolding span_length take_text drop starts_equals is_space
clause_of-quoted c key v h i = rw (h, value_after-quoted (b' ' ∷ []) v i) refl

parse_clause-clause_text :
    (k v : Text) → IsKey k → IsValue v → parse_clause (clause_text (k, v)) ≡ some (k, v)
unfolding parse_clause take_text drop is_space
parse_clause-clause_text [] v h i = elim h [ ]
parse_clause-clause_text (c ∷ s) v h i =
    let u = spaced_equals (quoted v) in
    let length_of = span_length-append is_word s b' ' (b'=' ∷ b'=' ∷ b' ' ∷ quoted v) h.1 refl in
    let key : take_text (suc (span_length is_word (s ++ u))) (c ∷ (s ++ u)) ≡ c ∷ s =
      ap (λ n. c ∷ take_text n (s ++ u)) length_of ∙ ap (λ r. c ∷ r) (take_text-append s u) in
    let rest : drop (suc (span_length is_word (s ++ u))) (c ∷ (s ++ u)) ≡ u =
      ap (λ n. drop n (s ++ u)) length_of ∙ drop-append s u in
    (λ j. clause_of c (key j) (rest j)) ∙ clause_of-quoted c (c ∷ s) v h.0 i

module _ (repr : Json → String) (row : Fields) where
  -- `str(row.get(key)) == value` for every clause.
  abbrev pub all_equal : Clauses → Bool
  all_equal [] = true
  all_equal (e ∷ cs) = codes_eq (codes (py_str repr (get_codes row e.0))) e.1 && all_equal cs

  match_clauses-step :
      (clause : Text) (clauses : List Text) (k v : Text)
      → parse_clause (strip clause) ≡ some (k, v)
      → match_clauses repr row (clause ∷ clauses) ≡ (
          if codes_eq (codes (py_str repr (get_codes row k))) v
          then match_clauses repr row clauses
          else ok false)
  unfolding match_clauses
  match_clauses-step clause clauses k v e = rw (match_clauses, e) refl

  match_clauses-clause_text :
      (cs : Clauses)
      → AreClauses cs
      → match_clauses repr row (map clause_text cs) ≡ ok (all_equal cs)
  unfolding match_clauses
  match_clauses-clause_text [] h = refl
  match_clauses-clause_text ((k, v) ∷ cs) h =
      match_clauses-step (clause_text (k, v)) (map clause_text cs) k v (
        ap parse_clause (strip-IsEnclosed (clause_text (k, v)) (clause-IsEnclosed k v h.0.0))
        ∙ parse_clause-clause_text k v h.0.0 h.0.1)
      ∙ by_test (codes_eq (codes (py_str repr (get_codes row k))) v)
          (match_clauses-clause_text cs h.1)
    where
      by_test :
          (b : Bool)
          → match_clauses repr row (map clause_text cs) ≡ ok (all_equal cs)
          → (if b then match_clauses repr row (map clause_text cs) else ok false)
            ≡ ok (b && all_equal cs)
      by_test true rest = rest
      by_test false rest = refl

  filter_match-step :
      (expr : Text) (c : ℕ) (s : Text)
      → strip expr ≡ c ∷ s
      → filter_match repr row expr ≡ match_clauses repr row (split_and (c ∷ s) 0 [])
  unfolding filter_match
  filter_match-step expr c s e = rw (filter_match, e) refl

  -- A filter of clauses `key == "value"` that are joined by " and " lets a row through exactly if, for every
  -- clause, the text of what the row has under the key, which is "None" if it has nothing there, is the value;
  -- it is never refused. The keys are identifiers of ASCII, and the values have no whitespace and no double
  -- quote; they may be empty. A filter without clauses, the empty text, lets every row through.
  pub filter_match-joined :
      (cs : Clauses) → AreClauses cs → filter_match repr row (joined cs) ≡ ok (all_equal cs)
  unfolding filter_match strip lstrip
  filter_match-joined [] h = refl
  filter_match-joined (([], v) ∷ cs) h = elim h.0.0 [ ]
  filter_match-joined ((c ∷ s, v) ∷ []) h =
      filter_match-step (joined ((c ∷ s, v) ∷ [])) c _
        (strip-IsEnclosed _ (joined-IsEnclosed (c ∷ s, v) [] h))
      ∙ ap (match_clauses repr row) (split-joined (c ∷ s) v [] h)
      ∙ match_clauses-clause_text ((c ∷ s, v) ∷ []) h
  filter_match-joined ((c ∷ s, v) ∷ f ∷ cs) h =
      filter_match-step (joined ((c ∷ s, v) ∷ f ∷ cs)) c _
        (strip-IsEnclosed _ (joined-IsEnclosed (c ∷ s, v) (f ∷ cs) h))
      ∙ ap (match_clauses repr row) (split-joined (c ∷ s) v (f ∷ cs) h)
      ∙ match_clauses-clause_text ((c ∷ s, v) ∷ f ∷ cs) h
