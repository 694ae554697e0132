-- ===== src/Engine/Filter/Clauses.antt =====
-- Filters as the documentation shows them, and how `_filter_match` of src/python/hypervec_server_engine.py splits
-- and strips them.
use hyper_vector.Common.{
  ℕ, suc, ◌≡◌, refl, sym, ap, ◌∙◌, true, false, ◌==◌, List, [], ◌∷◌, ◌++◌, map, arith, All,
  append-nil, append_assoc, ltb, ◌-◌,
}
use hyper_vector.Common.Dict.{codes_eq}
use hyper_vector.Json.Text.{to_upper}
use mathlib.Core.List.{reverse, reverse-append, reverse-reverse}
use hyper_vector.Bundle.Lines.{Text, is_space, strip, lstrip}
use hyper_vector.Engine.Filter.{
  split_and, and_length, starts_and, span_length, drop, is_letter, is_word,
}

-- A key: a letter or an underscore, then letters, digits and underscores.
abbrev pub IsKey : Text → Type 0
IsKey [] = ⊥
IsKey (c ∷ s) = (is_letter c ≡ true) × All (λ x. is_word x ≡ true) s

-- A value without whitespace and double quotes.
abbrev pub IsValue : Text → Type 0
IsValue v = All (λ x. (is_space x ≡ false) × ((x == b'"') ≡ false)) v

abbrev pub Clauses : Type 0
Clauses = List (Text × Text)

abbrev pub AreClauses : Clauses → Type 0
AreClauses cs = All (λ e. IsKey e.0 × IsValue e.1) cs

abbrev pub quoted : Text → Text
quoted v = b'"' ∷ (v ++ b'"' ∷ [])

abbrev pub spaced_equals : Text → Text
spaced_equals s = b' ' ∷ b'=' ∷ b'=' ∷ b' ' ∷ s

-- key == "value"
abbrev pub clause_text : Text × Text → Text
clause_text e = e.0 ++ spaced_equals (quoted e.1)

-- " and ".join(clauses)
abbrev pub joined : Clauses → Text
joined [] = []
joined (e ∷ []) = clause_text e
joined (e ∷ f ∷ cs) = clause_text e ++ b' ' ∷ b'a' ∷ b'n' ∷ b'd' ∷ b' ' ∷ joined (f ∷ cs)

letter_visible : (c : ℕ) → is_letter c ≡ true → is_space c ≡ false
unfolding is_space
letter_visible c h = ground arith

word_visible : (c : ℕ) → is_word c ≡ true → is_space c ≡ false
unfolding is_space
word_visible c h = ground arith

abbrev Visible : Text → Type 0
Visible s = All (λ c. is_space c ≡ false) s

key-Visible : (k : Text) → IsKey k → Visible k
key-Visible [] h = elim h [ ]
key-Visible (c ∷ s) h = (letter_visible c h.0, words s h.1)
  where
    words : (t : Text) → All (λ x. is_word x ≡ true) t → Visible t
    words [] k = tt
    words (x ∷ t) k = (word_visible x k.0, words t k.1)

quoted-Visible : (v : Text) → IsValue v → Visible (quoted v)
unfolding is_space
quoted-Visible v h = (refl, ended v h)
  where
    ended : (t : Text) → IsValue t → Visible (t ++ b'"' ∷ [])
    ended [] k = (refl, tt)
    ended (x ∷ t) k = (k.0.0, ended t k.1)

-- `re.split` at a place where no separator begins.
split-step :
    (c : ℕ) (s part : Text)
    → and_length (c ∷ s) ≡ 0
    → split_and (c ∷ s) 0 part ≡ split_and s 0 (part ++ c ∷ [])
unfolding split_and
split-step c s part h = rw h refl

visible-and_length : (c : ℕ) (s : Text) → is_space c ≡ false → and_length (c ∷ s) ≡ 0
unfolding and_length span_length
visible-and_length c s h = rw h refl

split-Visible :
    (t u part : Text) → Visible t → split_and (t ++ u) 0 part ≡ split_and u 0 (part ++ t)
split-Visible [] u part h = ap (split_and u 0) (sym (append-nil part))
split-Visible (c ∷ t) u part h =
    split-step c (t ++ u) part (visible-and_length c (t ++ u) h.0)
    ∙ split-Visible t u (part ++ c ∷ []) h.1
    ∙ ap (split_and u 0) (append_assoc part (c ∷ []) t)

quote-starts_and : (s : Text) → starts_and (b'"' ∷ s) ≡ false
unfolding starts_and to_upper codes_eq
quote-starts_and [] = refl
quote-starts_and (c ∷ []) = refl
quote-starts_and (c ∷ d ∷ s) = refl

quote-and_length : (s : Text) → and_length (b' ' ∷ b'"' ∷ s) ≡ 0
unfolding and_length span_length is_space drop
quote-and_length s = rw (quote-starts_and s) refl

equals-and_length : (s : Text) → and_length (b' ' ∷ b'=' ∷ b'=' ∷ s) ≡ 0
unfolding and_length span_length is_space drop starts_and to_upper codes_eq
equals-and_length [] = refl
equals-and_length (c ∷ s) = refl

split-clause :
    (k v u : Text)
    → IsKey k
    → IsValue v
    → split_and (clause_text (k, v) ++ u) 0 [] ≡ split_and u 0 (clause_text (k, v))
unfolding is_space
split-clause k v u h i =
    let tail = quoted v ++ u in
    ap (λ t. split_and t 0 []) (append_assoc k _ u)
    ∙ split-Visible k (b' ' ∷ b'=' ∷ b'=' ∷ b' ' ∷ tail) [] (key-Visible k h)
    ∙ split-step b' ' (b'=' ∷ b'=' ∷ b' ' ∷ tail) k (equals-and_length (b' ' ∷ tail))
    ∙ split-Visible (b'=' ∷ b'=' ∷ []) (b' ' ∷ tail) (k ++ b' ' ∷ []) (refl, (refl, tt))
    ∙ split-step b' ' tail ((k ++ b' ' ∷ []) ++ b'=' ∷ b'=' ∷ []) (quote-and_length _)
    ∙ split-Visible (quoted v) u (((k ++ b' ' ∷ []) ++ b'=' ∷ b'=' ∷ []) ++ b' ' ∷ [])
        (quoted-Visible v i)
    ∙ ap (split_and u 0) (simp append_assoc)

abbrev pub and_before : Text → Text
and_before s = b' ' ∷ b'a' ∷ b'n' ∷ b'd' ∷ b' ' ∷ s

separator-and_length : (c : ℕ) (s : Text) → is_space c ≡ false → and_length (and_before (c ∷ s)) ≡ 5
unfolding and_length span_length is_space drop starts_and to_upper codes_eq
separator-and_length c s h = rw h refl

split-cut :
    (c n : ℕ) (s part : Text)
    → and_length (c ∷ s) ≡ suc n
    → split_and (c ∷ s) 0 part ≡ part ∷ split_and s n []
unfolding split_and
split-cut c n s part h =
    let positive : ltb 0 (suc n) ≡ true = ground arith in
    let before : suc n - 1 ≡ n = omega arith in
    rw (h, positive) (ap (λ k. part ∷ split_and s k []) before)

-- The separator, before a text that begins with no whitespace.
split-separator :
    (c : ℕ) (s part : Text)
    → is_space c ≡ false
    → split_and (and_before (c ∷ s)) 0 part ≡ part ∷ split_and (c ∷ s) 0 []
unfolding split_and
split-separator c s part h =
    split-cut b' ' 4 (b'a' ∷ b'n' ∷ b'd' ∷ b' ' ∷ c ∷ s) part (separator-and_length c s h)

pub split-joined :
    (k v : Text) (cs : Clauses)
    → AreClauses ((k, v) ∷ cs)
    → split_and (joined ((k, v) ∷ cs)) 0 [] ≡ map clause_text ((k, v) ∷ cs)
unfolding split_and
split-joined k v [] h =
    ap (λ t. split_and t 0 []) (sym (append-nil (clause_text (k, v))))
    ∙ split-clause k v [] h.0.0 h.0.1
split-joined k v (([], w) ∷ cs) h = elim h.1.0.0 [ ]
split-joined k v ((c ∷ s, w) ∷ []) h =
    split-clause k v _ h.0.0 h.0.1
    ∙ split-separator c (s ++ spaced_equals (quoted w)) (clause_text (k, v))
        (letter_visible c h.1.0.0.0)
    ∙ ap (λ l. clause_text (k, v) ∷ l) (split-joined (c ∷ s) w [] h.1)
split-joined k v ((c ∷ s, w) ∷ f ∷ cs) h =
    split-clause k v _ h.0.0 h.0.1
    ∙ split-separator c (s ++ spaced_equals (quoted w) ++ and_before (joined (f ∷ cs)))
        (clause_text (k, v)) (letter_visible c h.1.0.0.0)
    ∙ ap (λ l. clause_text (k, v) ∷ l) (split-joined (c ∷ s) w (f ∷ cs) h.1)

-- A text that begins with no whitespace and ends in a double quote.
pub record IsEnclosed (t : Text) : Type 0 where
  first : ℕ
  middle : Text
  visible : is_space first ≡ false
  whole : t ≡ first ∷ (middle ++ b'"' ∷ [])

pub strip-IsEnclosed : (t : Text) → IsEnclosed t → strip t ≡ t
unfolding strip lstrip is_space
strip-IsEnclosed t h =
    let m = h.middle in
    let c = h.first in
    ap strip h.whole
    ∙ rw (h.visible, reverse-append (c ∷ m) (b'"' ∷ [])) (reverse-reverse' c m)
    ∙ sym h.whole
  where
    reverse-reverse' : (c : ℕ) (m : Text) → reverse (b'"' ∷ reverse (c ∷ m)) ≡ c ∷ (m ++ b'"' ∷ [])
    reverse-reverse' c m =
        reverse-append (b'"' ∷ []) (reverse (c ∷ m))
        ∙ ap (λ r. r ++ b'"' ∷ []) (reverse-reverse (c ∷ m))

pub clause-IsEnclosed : (k v : Text) → IsKey k → IsEnclosed (clause_text (k, v))
clause-IsEnclosed [] v h = elim h [ ]
clause-IsEnclosed (c ∷ s) v h = record {
  first = c;
  middle = s ++ b' ' ∷ b'=' ∷ b'=' ∷ b' ' ∷ b'"' ∷ v;
  visible = letter_visible c h.0;
  whole = ap (λ r. c ∷ r) (sym (append_assoc s _ (b'"' ∷ [])));
}

append-IsEnclosed : (t s u : Text) → IsEnclosed t → IsEnclosed u → IsEnclosed (t ++ (s ++ u))
append-IsEnclosed t s u h k = record {
  first = h.first;
  middle = (h.middle ++ b'"' ∷ []) ++ (s ++ k.first ∷ k.middle);
  visible = h.visible;
  whole =
      (λ i. h.whole i ++ (s ++ k.whole i))
      ∙ ap (λ r. h.first ∷ r)
          (ap (λ r. (h.middle ++ b'"' ∷ []) ++ r)
              (sym (append_assoc s (k.first ∷ k.middle) (b'"' ∷ [])))
            ∙ sym (append_assoc (h.middle ++ b'"' ∷ []) _ (b'"' ∷ [])));
}

pub joined-IsEnclosed :
    (e : Text × Text) (cs : Clauses) → AreClauses (e ∷ cs) → IsEnclosed (joined (e ∷ cs))
joined-IsEnclosed e [] h = clause-IsEnclosed e.0 e.1 h.0.0
joined-IsEnclosed e (f ∷ cs) h =
    append-IsEnclosed (clause_text e) (and_before []) (joined (f ∷ cs))
      (clause-IsEnclosed e.0 e.1 h.0.0) (joined-IsEnclosed f cs h.1)
