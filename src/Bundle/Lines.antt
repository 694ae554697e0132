-- ===== src/Bundle/Lines.antt =====
-- The JSON lines of a bundle: how `create_bundle` joins them and `read_bundle` takes them apart
-- (src/python/hypervec_bundle.py). A text is a list of code points.
use hyper_vector.Common.{
  ℕ, ◌≡◌, ◌≢◌, refl, ap, Bool, true, false, ◌||◌, ◌&&◌, ◌==◌, leb, List, [], ◌∷◌, ◌++◌, map,
  if◌then◌else◌, arith, All, ◌⊎◌, inl, inr, append_assoc, append-nil, ◌∙◌, Option, none, some,
}
use hyper_vector.Common.Result.{Result, ok, err, value_error, or_raise, ◌>>=◌}
use mathlib.Core.List.{reverse}

abbrev pub Text : Type 0
Text = List ℕ

-- "\n".join(lines) + "\n", and b"" if there are no lines.
unfoldable pub join_lines : List Text → Text
join_lines [] = []
join_lines (l ∷ ls) = l ++ (10 ∷ join_lines ls)

-- The code points at which `str.splitlines` ends a line.
unfoldable pub is_line_break : ℕ → Bool
is_line_break c =
    (leb 10 c && leb c 13) || (leb 0x1c c && leb c 0x1e) || c == 0x85 || c == 0x2028 || c == 0x2029

-- `str.splitlines`; `line` is what has been read of the current line. A carriage return takes a
-- newline that follows it along.
unfoldable pub split_from : Text → Text → List Text
unfolding is_line_break
split_from [] [] = []
split_from [] (c ∷ line) = (c ∷ line) ∷ []
split_from (c ∷ []) line = if is_line_break c then line ∷ [] else (line ++ c ∷ []) ∷ []
split_from (c ∷ d ∷ s) line =
    let broken = split_from (d ∷ s) [] in
    let crlf = split_from s [] in
    let more = split_from (d ∷ s) (line ++ c ∷ []) in
    if is_line_break c then line ∷ (if c == 13 && d == 10 then crlf else broken) else more

abbrev pub splitlines : Text → List Text
splitlines s = split_from s []

-- The code points that `str.strip` takes off.
unfoldable pub is_space : ℕ → Bool
is_space c =
    (leb 9 c && leb c 13)
    || (leb 0x1c c && leb c 0x20)
    || c == 0x85
    || c == 0xa0
    || c == 0x1680
    || (leb 0x2000 c && leb c 0x200a)
    || c == 0x2028
    || c == 0x2029
    || c == 0x202f
    || c == 0x205f
    || c == 0x3000

unfoldable pub lstrip : Text → Text
unfolding is_space
lstrip [] = []
lstrip (c ∷ s) = let rest = lstrip s in if is_space c then rest else c ∷ s

unfoldable pub strip : Text → Text
unfolding lstrip
strip s = reverse (lstrip (reverse (lstrip s)))

-- The rows of `scalar.jsonl`; `loads` is `json.loads`, and its errors are ValueErrors.
module _ {Row : Type 0} (loads : Text → Option Row) where
  unfoldable pub load_rows : List Text → Result (List Row)
  unfolding strip
  load_rows [] = ok []
  load_rows (l ∷ ls) =
      let rest = load_rows ls in
      elim (strip l) [
        | [] ↦ rest
        | c ∷ s ↦ do row ← or_raise value_error (loads (c ∷ s)); rows ← rest; ok (row ∷ rows)
      ]

  unfoldable pub parse_rows : Text → Result (List Row)
  unfolding load_rows split_from
  parse_rows s = load_rows (splitlines s)

-- A text that `splitlines` keeps in one piece and `strip` leaves alone.
pub record IsLine (l : Text) : Type 0 where
  pub unbroken : All (λ c. is_line_break c ≡ false) l
  pub stripped : strip l ≡ l
  pub nonempty : l ≢ []

split_from-line :
    (l rest line : Text)
    → All (λ c. is_line_break c ≡ false) l
    → split_from (l ++ 10 ∷ rest) line ≡ (line ++ l) ∷ split_from rest []
unfolding split_from is_line_break
split_from-line [] [] line h = rw append-nil
split_from-line [] (d ∷ s) line h = rw append-nil
split_from-line (c ∷ []) rest line h = rw h.0 (
    split_from-line [] rest (line ++ c ∷ []) tt
    ∙ ap (λ (u : Text). u ∷ split_from rest []) (append_assoc line (c ∷ []) []))
split_from-line (c ∷ d ∷ l) rest line h = rw h.0 (
    split_from-line (d ∷ l) rest (line ++ c ∷ []) h.1
    ∙ ap (λ (u : Text). u ∷ split_from rest []) (append_assoc line (c ∷ []) (d ∷ l)))

splitlines-join :
    (ls : List Text)
    → All (λ l. All (λ c. is_line_break c ≡ false) l) ls
    → splitlines (join_lines ls) ≡ ls
unfolding join_lines split_from
splitlines-join [] h = refl
splitlines-join (l ∷ ls) h =
    split_from-line l (join_lines ls) [] h.0 ∙ ap (◌∷◌ l) (splitlines-join ls h.1)

-- The first line of a text, up to any line break that is not part of a carriage return and newline.
split_from-break :
    (a rest line : Text) (c : ℕ)
    → All (λ c. is_line_break c ≡ false) a
    → is_line_break c ≡ true
    → (c == 13) ≡ false
    → split_from (a ++ c ∷ rest) line ≡ (line ++ a) ∷ split_from rest []
unfolding split_from
split_from-break [] [] line c h b n = rw (b, append-nil)
split_from-break [] (d ∷ s) line c h b n = rw (b, append-nil, n)
split_from-break (x ∷ []) rest line c h b n = rw h.0 (
    split_from-break [] rest (line ++ x ∷ []) c tt b n
    ∙ ap (λ (u : Text). u ∷ split_from rest []) (append_assoc line (x ∷ []) []))
split_from-break (x ∷ d ∷ l) rest line c h b n = rw h.0 (
    split_from-break (d ∷ l) rest (line ++ x ∷ []) c h.1 b n
    ∙ ap (λ (u : Text). u ∷ split_from rest []) (append_assoc line (x ∷ []) (d ∷ l)))

module _ {Row : Type 0} (dumps : Row → Text) (loads : Text → Option Row) where
  -- What a line of the bundle has to be, and that `json.loads` reads what `json.dumps` wrote.
  pub record IsRow (r : Row) : Type 0 where
    pub line : IsLine (dumps r)
    pub loaded : loads (dumps r) ≡ some r

  load_rows-line :
      (l : Text) (ls : List Text) (r : Row)
      → strip l ≡ l
      → l ≢ []
      → loads l ≡ some r
      → load_rows loads (l ∷ ls) ≡ (load_rows loads ls >>= λ rs. ok (r ∷ rs))
  unfolding load_rows
  load_rows-line [] ls r h n e = absurd (n refl)
  load_rows-line (c ∷ s) ls r h n e = rw (h, load_rows) (rw e)

  load_rows-dumps : (rows : List Row) → All IsRow rows → load_rows loads (map dumps rows) ≡ ok rows
  unfolding load_rows
  load_rows-dumps [] h = refl
  load_rows-dumps (r ∷ rows) h =
      load_rows-line (dumps r) (map dumps rows) r h.0.line.stripped h.0.line.nonempty h.0.loaded
      ∙ (rw (load_rows-dumps rows h.1))

  unbroken_lines :
      (rows : List Row)
      → All IsRow rows
      → All (λ l. All (λ c. is_line_break c ≡ false) l) (map dumps rows)
  unbroken_lines [] h = tt
  unbroken_lines (r ∷ rows) h = (h.0.line.unbroken, unbroken_lines rows h.1)

  -- Rows written as JSON lines are read back, all of them and in order, where each row's JSON text
  -- has no line break of `splitlines`, is not empty and has no space at its ends, and `json.loads`
  -- reads what `json.dumps` wrote.
  pub parse_rows-join_lines :
      (rows : List Row) → All IsRow rows → parse_rows loads (join_lines (map dumps rows)) ≡ ok rows
  unfolding parse_rows
  parse_rows-join_lines rows h =
      rw (splitlines-join (map dumps rows) (unbroken_lines rows h)) (load_rows-dumps rows h)

load_rows-bad :
    {Row : Type 0} (loads : Text → Option Row) (l : Text) (ls : List Text) (m : Text)
    → strip l ≡ m
    → m ≢ []
    → loads m ≡ none
    → load_rows loads (l ∷ ls) ≡ err value_error
unfolding load_rows
load_rows-bad loads l ls [] h n e = absurd (n refl)
load_rows-bad loads l ls (c ∷ s) h n e = rw (h, load_rows) (rw e)

-- `json.dumps(ensure_ascii=False)` leaves U+0085, U+2028 and U+2029 in a text as they are, and
-- `splitlines` ends a line there. If the part of a row's JSON text before such a character is no JSON
-- text, then a bundle with that row first is refused with a ValueError, whatever rows follow.
pub parse_rows-separator :
    {Row : Type 0} (loads : Text → Option Row) (before after : Text) (c : ℕ) (ls : List Text)
    → All (λ x. is_line_break x ≡ false) before
    → (c ≡ 0x85) ⊎ (c ≡ 0x2028) ⊎ (c ≡ 0x2029)
    → strip before ≢ []
    → loads (strip before) ≡ none
    → parse_rows loads (join_lines ((before ++ c ∷ after) ∷ ls)) ≡ err value_error
unfolding parse_rows join_lines is_line_break
parse_rows-separator loads before after c ls h s n e = rw append_assoc (
    rw (split_from-break before (after ++ 10 ∷ join_lines ls) [] c h (breaks s) (ground arith)) (
      load_rows-bad loads before (split_from (after ++ 10 ∷ join_lines ls) []) (strip before) refl n
        e))
  where
    breaks : (c ≡ 0x85) ⊎ (c ≡ 0x2028) ⊎ (c ≡ 0x2029) → is_line_break c ≡ true
    breaks (inl x) = rw x
    breaks (inr (inl x)) = rw x
    breaks (inr (inr x)) = rw x
