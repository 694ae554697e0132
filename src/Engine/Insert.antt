-- ===== src/Engine/Insert.antt =====
-- `insert` of src/python/hypervec_server_engine.py.
pub mod Laws
use hyper_vector.Common.{
  ℕ, ◌+◌, String, Bool, true, false, not, ◌||◌, Option, none, some, List, [], ◌∷◌, ◌==◌, str_eq,
  if◌then◌else◌, length,
}
use hyper_vector.Common.Result
use hyper_vector.Common.Result.{Result, ok, err, Error, value_error}
use hyper_vector.Common.Exec.{pure, lift, gets, modify, ◌>>=◌, ◌>>◌}
use hyper_vector.Json.{Json, Fields, end, field, get}
use hyper_vector.Json.Text.{py_str}
use hyper_vector.Library.{Codec}
use hyper_vector.Meta.{CollectionMeta}
use hyper_vector.Scalar.{NewRow, Vector, ensure_table, next_row_id, insert_batch, count}
use hyper_vector.Engine.State.{Collection, Host, Method, meta_or_raise, meta_update, on_tables}

-- {key: value for key, value in row.items() if key not in structured_fields}
unfoldable pub metadata_of : CollectionMeta → Fields → Fields
metadata_of meta end = end
metadata_of meta (field k v row) =
    let rest = metadata_of meta row in
    if str_eq k meta.id_field || str_eq k meta.vector_field || str_eq k meta.text_field
    then rest
    else field k v rest

-- The dimension after a vector of `n` components: the first one sets it.
unfoldable pub check_dim : Option ℕ → ℕ → Result ℕ
check_dim none n = ok n
check_dim (some d) n = if d == n then ok d else err value_error

-- `str(row.get(key, default))`
abbrev text_or : (Json → String) → Fields → String → String → String
text_or repr row key default = elim (get row key) [ none ↦ default | some v ↦ py_str repr v ]

module _ (c : Codec) (meta : CollectionMeta) where
  -- One round of the loop over `data`, for the row that gets the id `row_id`.
  unfoldable pub prepare_row : ℕ → Option ℕ → Fields → Result (ℕ × NewRow)
  unfolding check_dim metadata_of get py_str
  prepare_row row_id dim row = elim (get row meta.vector_field) [
    | none ↦ err value_error
    | some value ↦ elim (c.as_vector value) [
      | none ↦ err value_error
      | some vector ↦ Result.◌>>=◌ (check_dim dim (length vector)) (λ d. ok (
        d,
        record {
          row_id = row_id;
          doc_id = text_or c.repr row meta.id_field (py_str c.repr (Json.int row_id));
          vector = vector;
          text_content = text_or c.repr row meta.text_field "";
          metadata = metadata_of meta row;
        },
      ))
    ]
  ]

  unfoldable pub prepare_rows : ℕ → Option ℕ → List Fields → Result (Option ℕ × List NewRow)
  unfolding prepare_row
  prepare_rows row_id dim [] = ok (dim, [])
  prepare_rows row_id dim (row ∷ batch) = Result.◌>>=◌ (prepare_row row_id dim row) (λ r.
      Result.◌>>=◌ (prepare_rows (row_id + 1) (some r.0) batch) (λ rest. ok (rest.0, r.1 ∷ rest.1)))

-- The result is `insert_count` and `total`. The version of the data goes up before the rows are
-- written.
unfoldable pub insert : {Index : Type 0} → Host Index → ℕ → List Fields → Method Index (ℕ × ℕ)
unfolding meta_or_raise meta_update ensure_table next_row_id prepare_rows insert_batch count
insert host now batch = do
  meta ← meta_or_raise
  modify (λ s. record s { tables = ensure_table s.tables })
  next_row_id ← gets (λ s. next_row_id s.tables)
  (dim, rows) ← lift (prepare_rows host.codec meta next_row_id meta.dim batch)
  meta_update now (λ m. record m { dim = dim; data_version = meta.data_version + 1 })
  on_tables (insert_batch now rows)
  total ← gets (λ s. count s.tables)
  meta_update now (λ m. record m { total = total })
  modify (λ s. record s { loaded = none; cache = none })
  pure (length batch, total)
