-- ===== src/Engine/Import/Rows.antt =====
-- A row as a bundle holds it, taken for the staging table (src/python/hypervec_scalar_store.py:
-- `import_rows_to_staging`).
use hyper_vector.Common.{ℕ, String, Option, none, some, if◌then◌else◌}
use hyper_vector.Common.Result
use hyper_vector.Common.Result.{
  Result, ok, err, Error, conflict_error, file_not_found, value_error, type_error, key_error,
  traverse,
}
use hyper_vector.Json.{Json, null, int, obj, Fields, end, get, truthy}
use hyper_vector.Json.Text.{py_str}
use hyper_vector.Library.{Codec}
use hyper_vector.Scalar.{Doc}

-- dict(row.get("metadata") or {})
abbrev metadata_or_empty : Option Json → Result Fields
metadata_or_empty none = ok end
metadata_or_empty (some v) =
    if truthy v then elim v [ obj d ↦ ok d | _ ↦ err type_error ] else ok end

-- row.get(key), a time that may be absent or null
abbrev time_of : Option Json → Result ℕ
time_of none = ok 0
time_of (some null) = ok 0
time_of (some (int n)) = ok n
time_of (some _) = err type_error

abbrev text_of : (Json → String) → Option Json → String
text_of repr none = ""
text_of repr (some v) = py_str repr v

-- A row of the bundle as the tuple of INSERT. A time 0 stands for one that is not there.
unfoldable pub row_of_dict : Codec → Fields → Result Doc
unfolding get py_str truthy
row_of_dict c r = Result.◌>>=◌ (Result.or_raise key_error (get r "row_id")) (λ id.
    Result.◌>>=◌ (elim id [ int n ↦ ok n | _ ↦ err type_error ])
      (λ row_id. Result.◌>>=◌ (Result.or_raise key_error (get r "doc_id")) (λ doc_id.
        Result.◌>>=◌ (Result.or_raise key_error (get r "vector")) (λ value.
          Result.◌>>=◌ (Result.or_raise value_error (c.as_vector value)) (λ vector.
            Result.◌>>=◌ (metadata_or_empty (get r "metadata")) (λ metadata.
              Result.◌>>=◌ (time_of (get r "created_at")) (λ created_at.
                Result.◌>>=◌ (time_of (get r "updated_at")) (λ updated_at. ok (record {
                  row_id = row_id;
                  doc_id = py_str c.repr doc_id;
                  vector = vector;
                  text_content = text_of c.repr (get r "text_content");
                  metadata = metadata;
                  created_at = created_at;
                  updated_at = updated_at;
                })))))))))
