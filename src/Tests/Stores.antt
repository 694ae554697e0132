-- ===== src/Tests/Stores.antt =====
-- The metadata store, the scalar store and the table names.
use hyper_vector.Common.{ℕ, ◌≡◌, refl, arith, Option, none, some, List, [], ◌∷◌, ◌++◌}
use hyper_vector.Common.Result.{ok}
use hyper_vector.Meta.Codec.{from_dict, to_dict, IsStorable}
use hyper_vector.Meta.Codec.RoundTrip.{from_dict-to_dict}
use hyper_vector.Meta.Store.{MetaStore, dump, load, flush}
use hyper_vector.Meta.Store.Reload.{sorted_entries, load-flush}
use hyper_vector.Names.{codes}
use hyper_vector.Names.Tables.{table as sql_table, staging_table, table-shared}
use hyper_vector.Scalar.{NewRow, insert_batch}
use hyper_vector.Scalar.Laws.{HasTable, IsAtomic, insert_batch-IsAtomic}
use hyper_vector.Json.{Json, obj, end}
use hyper_vector.Json.Sorted.{sort_json}
use hyper_vector.Tests.Samples.{meta, tables}

storable : IsStorable meta
storable = record {
  id_named = refl;
  vector_named = refl;
  text_named = refl;
  has_params = refl;
  created = omega arith;
  updated = omega arith;
}

from_dict-to_dict_example : from_dict 9 (to_dict meta) ≡ ok meta
from_dict-to_dict_example = from_dict-to_dict 9 meta storable

abbrev store : MetaStore
store = record {
  entries = ("docs", meta) ∷ ("notes", record meta { collection_name = "notes" }) ∷ [];
  path = none;
}

-- A file that holds one document.
abbrev dumps : Json → List ℕ
dumps j = codes "{}"

abbrev loads : List ℕ → Option Json
loads text = some (sort_json (obj (dump store.entries)))

load-flush_example :
    load loads 9 (flush dumps store).path
    ≡ ok (record { entries = sorted_entries store.entries; path = (flush dumps store).path })
load-flush_example = load-flush dumps loads 9 store refl (
  storable,
  (
    record {
      id_named = refl;
      vector_named = refl;
      text_named = refl;
      has_params = refl;
      created = omega arith;
      updated = omega arith;
    },
    tt,
  ),
)

has_table : HasTable tables.live
has_table = (((omega arith, refl), tt), (tt, tt))

abbrev new_rows : List NewRow
new_rows =
    record { row_id = 2; doc_id = "c"; vector = 5 ∷ 6 ∷ []; text_content = ""; metadata = end } ∷ []

insert_batch-IsAtomic_example : IsAtomic 1 tables (insert_batch 9 new_rows tables)
insert_batch-IsAtomic_example = insert_batch-IsAtomic 9 new_rows tables has_table

table-shared_example :
    (sql_table (codes "a" ++ b'-' ∷ codes "b") ≡ sql_table (codes "a" ++ b'_' ∷ codes "b"))
    × (sql_table (codes "docs" ++ codes "__import") ≡ staging_table (codes "docs"))
table-shared_example = table-shared (codes "docs") (codes "a") (codes "b")
