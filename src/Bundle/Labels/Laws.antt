-- ===== src/Bundle/Labels/Laws.antt =====
-- What the validation of the labels shows, and rows that pass it (src/python/hypervec_bundle.py).
use hyper_vector.Common.{
  ℕ, zero, suc, ◌+◌, ◌≤◌, ◌<◌, ◌≡◌, refl, ap, ◌∙◌, ◌⊎◌, inl, inr, String, true, false, not, ◌&&◌,
  Option, some, List, [], ◌∷◌, ◌==◌, str_eq, arith, length, get_elem?, Bool-cases, Option-cases,
  ==_iff,
}
use hyper_vector.Common.Result.{ok, value_error, refuse, ◌>>◌, >>=-eq-ok, refuse-eq-ok}
use hyper_vector.Json.{Json, int, Fields, get}
use hyper_vector.Bundle.Labels.{
  label_strategy_implicit_sequential, row_id_of, vector_fits, member, check_row, check_rows,
  all_below, covers, validate_index_label_mapping,
}

row_id_of-some : (v : Json) (n : ℕ) → row_id_of v ≡ some n → v ≡ int n
unfolding row_id_of
row_id_of-some (int m) n h = ground arith
row_id_of-some _ n h = absurd (ground arith)

-- A row that passes: its id, which is new, and its vector.
pub record IsLabelled (dim : Option ℕ) (row : Fields) (i : ℕ) : Type 0 where
  pub labelled : get row "row_id" ≡ some (int i)
  pub fits : vector_fits dim (get row "vector") ≡ true

check_row-ok :
    (dim : Option ℕ) (seen : List ℕ) (row : Fields) (i : ℕ)
    → check_row dim seen row ≡ ok i
    → IsLabelled dim row i × (member i seen ≡ false)
unfolding check_row
check_row-ok dim seen row i h = elim (Option-cases (get row "row_id")) [
  | inl e ↦ absurd (ground arith)
  | inr (v, e) ↦ elim (Option-cases (row_id_of v)) [
    | inl e' ↦ absurd (ground arith)
    | inr (n, e') ↦ ground (arith, row_id_of-some v n e')
  ]
]

-- A row of the list with the label `i`, at position `j`.
pub record Resolves (dim : Option ℕ) (rows : List Fields) (i j : ℕ) : Type 0 where
  pub row : Fields
  pub found : get_elem? rows j ≡ some row
  pub labelled : IsLabelled dim row i

check_rows-member :
    (dim : Option ℕ) (rows : List Fields) (seen final : List ℕ) (i : ℕ)
    → check_rows dim seen rows ≡ ok final
    → member i final ≡ true
    → (member i seen ≡ true) ⊎ ((j : ℕ) × Resolves dim rows i j)
unfolding check_rows member
check_rows-member dim [] seen final i h m = inl (ground arith)
check_rows-member dim (row ∷ rows) seen final i h m =
    let (n, e, h') = >>=-eq-ok (check_row dim seen row) _ h in
    after n e (check_rows-member dim rows (n ∷ seen) final i h' m)
  where
    after :
        (n : ℕ)
        → check_row dim seen row ≡ ok n
        → (member i (n ∷ seen) ≡ true) ⊎ ((j : ℕ) × Resolves dim rows i j)
        → (member i seen ≡ true) ⊎ ((j : ℕ) × Resolves dim (row ∷ rows) i j)
    after n e (inr (j, r)) =
        inr (suc j, record { row = r.row; found = r.found; labelled = r.labelled })
    after n e (inl m) = elim (Bool-cases (i == n)) [
      | inl same ↦ inr (
        0,
        record {
          row = row;
          found = refl;
          labelled = rw ((==_iff i n).0 same) (check_row-ok dim seen row n e).0;
        },
      )
      | inr other ↦ inl (ground arith)
    ]

covers-member : (n : ℕ) (s : List ℕ) (i : ℕ) → covers n s ≡ true → i < n → member i s ≡ true
unfolding covers
covers-member zero s i h lt = absurd (omega arith)
covers-member (suc n) s i h lt = elim (Bool-cases (i == n)) [
  | inl same ↦ rw ((==_iff i n).0 same) (ground arith)
  | inr other ↦ covers-member n s i (ground arith) (ground arith)
]

-- After a successful validation there are `total` rows, and every index label below `total` resolves:
-- some row has that label as its integer `row_id`, and its vector is absent or is a flat list of the
-- given dimension.
pub validate-Resolves :
    (rows : List Fields) (total : ℕ) (dim : Option ℕ) (label_strategy : String)
    → validate_index_label_mapping rows total dim label_strategy ≡ ok tt
    → (length rows ≡ total) × ((i : ℕ) → i < total → (j : ℕ) × Resolves dim rows i j)
unfolding validate_index_label_mapping
validate-Resolves rows total dim label_strategy h =
    let (_, h₁) =
      refuse-eq-ok (not (str_eq label_strategy label_strategy_implicit_sequential)) value_error _
        h in
    let (counted, h₂) = refuse-eq-ok (not (length rows == total)) value_error _ h₁ in
    let (seen, checked, h₃) =
      >>=-eq-ok (check_rows dim [] rows)
        (λ s. refuse (not (all_below total s && covers total s)) value_error >> ok tt) h₂ in
    let (equal, _) =
      refuse-eq-ok (not (all_below total seen && covers total seen)) value_error (ok tt) h₃ in
    (
      ground arith,
      λ i lt. resolve (
          check_rows-member dim rows [] seen i checked
            (covers-member total seen i (ground arith) lt)),
    )
  where
    resolve :
        {i : ℕ}
        → (member i [] ≡ true) ⊎ ((j : ℕ) × Resolves dim rows i j)
        → (j : ℕ) × Resolves dim rows i j
    resolve (inl m) = absurd (ground arith)
    resolve (inr r) = r

-- Rows numbered from `start` on, with vectors that fit: what `insert` and `export_rows` make.
abbrev pub IsNumbered : Option ℕ → ℕ → List Fields → Type 0
IsNumbered dim start [] = Unit
IsNumbered dim start (row ∷ rows) = IsLabelled dim row start × IsNumbered dim (suc start) rows

-- `n - 1`, …, `0`, as the loop collects them.
seen_below : ℕ → List ℕ
seen_below zero = []
seen_below (suc n) = n ∷ seen_below n

member-seen_below : (n i : ℕ) → n ≤ i → member i (seen_below n) ≡ false
unfolding member seen_below
member-seen_below zero i h = refl
member-seen_below (suc n) i h = ground (arith, member-seen_below n i)

check_rows-numbered :
    (dim : Option ℕ) (rows : List Fields) (start : ℕ)
    → IsNumbered dim start rows
    → check_rows dim (seen_below start) rows ≡ ok (seen_below (start + length rows))
unfolding check_rows check_row row_id_of seen_below
check_rows-numbered dim [] start h = ap (λ n. ok (seen_below n)) (omega arith)
check_rows-numbered dim (row ∷ rows) start h =
    rw (h.0.labelled, member-seen_below start start (omega arith), h.0.fits)
      (check_rows-numbered dim rows (suc start) h.1 ∙ ap (λ n. ok (seen_below n)) (omega arith))

seen_below-below : (n k : ℕ) → n ≤ k → all_below k (seen_below n) ≡ true
unfolding all_below seen_below
seen_below-below zero k h = refl
seen_below-below (suc n) k h = ground (arith, seen_below-below n k)

member-seen_below_lt : (n i : ℕ) → i < n → member i (seen_below n) ≡ true
unfolding member seen_below
member-seen_below_lt zero i h = absurd (omega arith)
member-seen_below_lt (suc n) i h = ground (arith, member-seen_below_lt n i)

seen_below-covers : (k n : ℕ) → k ≤ n → covers k (seen_below n) ≡ true
unfolding covers
seen_below-covers zero n h = refl
seen_below-covers (suc k) n h = ground (arith, member-seen_below_lt n k, seen_below-covers k n)

-- Rows numbered 0, 1, 2, … in order, each with an absent vector or a flat one of the given dimension,
-- pass the validation at their own count under the v1 strategy.
pub validate-numbered :
    (rows : List Fields) (dim : Option ℕ)
    → IsNumbered dim 0 rows
    → validate_index_label_mapping rows (length rows) dim label_strategy_implicit_sequential ≡ ok tt
unfolding validate_index_label_mapping
validate-numbered rows dim h =
    let checked : check_rows dim [] rows ≡ ok (seen_below (length rows)) =
      unfold seen_below in
      check_rows-numbered dim rows 0 h ∙ ap (λ n. ok (seen_below n)) (omega arith) in
    rw (
      (==_iff (length rows) (length rows)).1 refl,
      checked,
      seen_below-below (length rows) (length rows) (omega arith),
      seen_below-covers (length rows) (length rows) (omega arith),
    )
