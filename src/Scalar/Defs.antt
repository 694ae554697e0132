-- ===== src/Scalar/Defs.antt =====
-- The table of a collection and the statements that `ScalarStore` runs on it
-- (src/python/hypervec_scalar_store.py). A table lists its rows in the order of `row_id`, which is its
-- primary key. A vector is the list of its float32 words.
use hyper_vector.Common.{
  ℕ, suc, String, Bool, true, false, ◌||◌, Option, none, some, List, [], ◌∷◌, map, ltb, ◌==◌,
  str_eq, if◌then◌else◌, length, max,
}
use hyper_vector.Common.Result.{
  Result, ok, err, value_error, operational_error, refuse, or_raise, traverse, ◌>>=◌, ◌>>◌,
}
use hyper_vector.Json.{Fields}

abbrev pub Vector : Type 0
Vector = List ℕ

pub record Doc : Type 0 where
  pub row_id : ℕ
  pub doc_id : String
  pub vector : Vector
  pub text_content : String
  pub metadata : Fields
  pub created_at : ℕ
  pub updated_at : ℕ

abbrev pub Table : Type 0
Table = List Doc

-- The two tables of a collection; `none` is a table that does not exist.
pub record Tables : Type 0 where
  pub live : Option Table
  pub staging : Option Table

-- What `_decode_vector` returns at the dimension `dim`.
unfoldable pub decode_vector : ℕ → Vector → Result Vector
decode_vector dim v = do refuse (if length v == dim then false else true) value_error; ok v

-- The two unique columns.
unfoldable pub clashes : Doc → Doc → Bool
clashes a b = a.row_id == b.row_id || str_eq a.doc_id b.doc_id

unfoldable pub clashes_any : Doc → Table → Bool
clashes_any a [] = false
clashes_any a (b ∷ t) = clashes a b || clashes_any a t

unfoldable pub place : Doc → Table → Table
place a [] = a ∷ []
place a (b ∷ t) = if ltb a.row_id b.row_id then a ∷ b ∷ t else b ∷ place a t

-- INSERT INTO: `none` is an IntegrityError.
unfoldable pub insert_row : Doc → Table → Option Table
unfolding clashes_any clashes place
insert_row a t = if clashes_any a t then none else some (place a t)

-- executemany of INSERT, up to the first error. It gives the table at that point, and whether all
-- rows went in.
unfoldable pub insert_rows : List Doc → Table → Table × Bool
unfolding insert_row
insert_rows [] t = (t, true)
insert_rows (a ∷ rows) t = elim (insert_row a t) [
  | none ↦ (t, false)
  | some t' ↦ insert_rows rows t'
]

-- CREATE TABLE IF NOT EXISTS
unfoldable pub ensure_table : Tables → Tables
ensure_table s = elim s.live [ none ↦ record s { live = some [] } | some t ↦ s ]

-- DROP TABLE IF EXISTS
unfoldable pub drop_table : Tables → Tables
drop_table s = record s { live = none }

-- A missing table counts as empty.
unfoldable pub count : Tables → ℕ
count s = elim s.live [ none ↦ 0 | some t ↦ length t ]

-- COALESCE(MAX(row_id), -1) + 1
unfoldable pub next_after : Table → ℕ
next_after [] = 0
next_after (a ∷ t) = max (suc a.row_id) (next_after t)

unfoldable pub next_row_id : Tables → ℕ
unfolding next_after
next_row_id s = elim s.live [ none ↦ 0 | some t ↦ next_after t ]

-- A row as `insert` hands it over: the two times are those of the batch.
pub record NewRow : Type 0 where
  pub row_id : ℕ
  pub doc_id : String
  pub vector : Vector
  pub text_content : String
  pub metadata : Fields

unfoldable pub stamp : ℕ → NewRow → Doc
stamp now r = record {
  row_id = r.row_id;
  doc_id = r.doc_id;
  vector = r.vector;
  text_content = r.text_content;
  metadata = r.metadata;
  created_at = now;
  updated_at = now;
}

-- All rows or none: on an IntegrityError the transaction is rolled back.
unfoldable pub insert_batch : ℕ → List NewRow → Tables → Result (Unit {0}) × Tables
unfolding insert_rows stamp
insert_batch now rows s = elim s.live [
  | none ↦ (err operational_error, s)
  | some t ↦
      let (t', done) = insert_rows (map (stamp now) rows) t in
      if done then (ok tt, record s { live = some t' }) else (err value_error, s)
]

-- SELECT vector ORDER BY row_id, each checked against the dimension.
unfoldable pub get_vectors : ℕ → Tables → Result (List Vector)
unfolding decode_vector
get_vectors dim s = do
  t ← or_raise operational_error s.live
  traverse (λ (a : Doc). decode_vector dim a.vector) t

-- The scalar part of a row.
pub record Scalar : Type 0 where
  pub doc_id : String
  pub text_content : String
  pub metadata : Fields

unfoldable pub scalar_of : Doc → Scalar
scalar_of a = record { doc_id = a.doc_id; text_content = a.text_content; metadata = a.metadata }

-- A dictionary from row ids to scalars: `by_row_id`, and what `load_all_scalars` returns.
unfoldable pub find : List (ℕ × Scalar) → ℕ → Option Scalar
find [] k = none
find ((j, v) ∷ d) k = if j == k then some v else find d k

unfoldable pub scalars : Table → List (ℕ × Scalar)
unfolding scalar_of
scalars [] = []
scalars (a ∷ t) = (a.row_id, scalar_of a) ∷ scalars t

unfoldable pub get_by_row_ids : List ℕ → Tables → Result (List (Option Scalar))
unfolding find scalars
get_by_row_ids [] s = ok []
get_by_row_ids (i ∷ ids) s = do
  t ← or_raise operational_error s.live
  ok (map (find (scalars t)) (i ∷ ids))

unfoldable pub load_all_scalars : Tables → List (ℕ × Scalar)
unfolding scalars
load_all_scalars s = elim s.live [ none ↦ [] | some t ↦ scalars t ]

-- Rows in the order of `row_id`; none where the table does not exist.
unfoldable pub export_rows : Tables → List Doc
export_rows s = elim s.live [ none ↦ [] | some t ↦ t ]
