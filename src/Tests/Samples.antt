-- ===== src/Tests/Samples.antt =====
-- A small index module, small codecs, and a collection with two rows.
use hyper_vector.Common.{
  ℕ, ◌+◌, ◌==◌, ◌≡◌, refl, Bool, true, false, String, Option, none, some, List, [], ◌∷◌, map,
  length, if◌then◌else◌, str_eq,
}
use hyper_vector.Common.Result.{ok}
use hyper_vector.Json.{Json, int, str, arr, obj, Items, nil, cons, Fields, end, field, get}
use hyper_vector.Library.{Codec, IsCodec, Hypervec, IsHypervec, spec_dim}
use hyper_vector.Meta.{CollectionMeta, ready}
use hyper_vector.Scalar.{Doc, Tables, Vector, Table}
use hyper_vector.Engine.State.{Collection, Host, empty_dir}
use hyper_vector.Engine.Import.{Restore}

abbrev pub ints : Items → Option Vector
ints nil = some []
ints (cons (int n) xs) = elim (ints xs) [ none ↦ none | some v ↦ some (n ∷ v) ]
ints (cons _ xs) = none

abbrev pub items : Vector → Items
items [] = nil
items (n ∷ v) = cons (int n) (items v)

-- One code for each kind of dictionary.
abbrev pub dump : Json → List ℕ
dump (obj d) = elim (get d "format") [
  | some v ↦ 200 ∷ []
  | none ↦ elim (get d "row_id") [ some v ↦ 201 ∷ [] | none ↦ 202 ∷ [] ]
]
dump _ = 203 ∷ []

-- A digest that tells files of two bytes from others.
abbrev pub digest : List ℕ → String
digest b = if length b == 2 then "sha256:two" else "sha256:other"

abbrev pub as_vector : Json → Option Vector
as_vector (arr xs) = ints xs
as_vector _ = none

-- The codecs, with what the codes 200 and 201 stand for.
abbrev pub codec : Fields → Fields → Codec
codec manifest row = record {
  dumps = dump;
  loads = λ b. elim b [
    | [] ↦ none
    | c ∷ cs ↦ if c == 200 then some (obj manifest) else if c == 201 then some (obj row) else none
  ];
  sha256 = digest;
  deflated = length;
  as_vector = as_vector;
  to_list = λ v. arr (items v);
  repr = λ v. "?";
  truncate = λ s. ok 16;
}

digest_named : (t : Bool) → str_eq (if t then "sha256:two" else "sha256:other") "" ≡ false
digest_named true = refl
digest_named false = refl

pub codec-IsCodec : (manifest row : Fields) → IsCodec (codec manifest row)
codec-IsCodec manifest row = record { sha256-named = λ b. digest_named (length b == 2) }

-- An index that knows its dimension and how many vectors it holds; it finds the labels 0 and 1.
abbrev pub Index : Type 0
Index = ℕ × ℕ

abbrev pub hypervec : Hypervec Index
hypervec = record {
  make = λ spec. (spec_dim spec, 0);
  is_trained = λ i. true;
  train = λ i vs. i;
  add = λ i vs. (i.0, i.1 + length vs);
  n_total = λ i. i.1;
  dim = λ i. i.0;
  search = λ i queries k params. map (λ q. (some 0, 5) ∷ (none, 0) ∷ (some 1, 7) ∷ []) queries;
  write_index = λ i. i.0 ∷ i.1 ∷ [];
  read_index = λ b. elim b [ [] ↦ none | d ∷ cs ↦ elim cs [ [] ↦ none | n ∷ ds ↦ some (d, n) ] ];
}

pub hypervec-IsHypervec : IsHypervec hypervec
hypervec-IsHypervec = record {
  make-n_total = λ spec. refl;
  make-dim = λ spec. refl;
  train-n_total = λ i vs. refl;
  train-dim = λ i vs. refl;
  add-n_total = λ i vs. refl;
  add-dim = λ i vs. refl;
}

abbrev pub row : Fields
row =
    field "row_id" (int 0)
      (field "doc_id" (str "a") (field "vector" (arr (items (1 ∷ 2 ∷ []))) end))

abbrev pub host : Host Index
host = record {
  codec = codec end row;
  hypervec = hypervec;
  file_bytes = λ f. 1 ∷ 2 ∷ 3 ∷ [];
  cache_max_rows = 10;
}

abbrev pub schema : Fields
schema = field "fields" (arr nil) end

abbrev pub meta : CollectionMeta
meta = record {
  collection_name = "docs";
  version = 4;
  schema = schema;
  index_params = field "indexes" (arr nil) end;
  id_field = "id";
  vector_field = "vector";
  text_field = "text";
  dim = some 2;
  total = 2;
  index_path = "/data/docs";
  index_checksum = some "sha256:two";
  index_size_bytes = some 2;
  created_at = 1;
  updated_at = 2;
  flushed_at = some 2;
  data_state = ready;
  last_known_total = none;
  last_exported_at = none;
  last_purged_at = none;
  bundle_format = none;
  data_version = 3;
  index_version = 3;
  exported_data_version = some 3;
  exported_bundle_checksum = none;
  exported_index_version = some 3;
  exported_index_checksum = some "sha256:two";
  import_txn = none;
}

abbrev pub doc : ℕ → String → Vector → Doc
doc row_id doc_id vector = record {
  row_id = row_id;
  doc_id = doc_id;
  vector = vector;
  text_content = "text";
  metadata = field "source" (str "manual") end;
  created_at = 1;
  updated_at = 2;
}

abbrev pub table : Table
table = doc 0 "a" (1 ∷ 2 ∷ []) ∷ doc 1 "b" (3 ∷ 4 ∷ []) ∷ []

abbrev pub tables : Tables
tables = record { live = some table; staging = none }

abbrev pub collection : Collection Index
collection = record {
  meta = some meta;
  tables = tables;
  dir = record empty_dir { index = some (2 ∷ 2 ∷ []) };
  loaded = some (2, 2);
  cache = none;
}

-- A bundle with one row, and an index of one vector.
abbrev pub restored : Restore
restored = record {
  index_bytes = 2 ∷ 1 ∷ [];
  rows = row ∷ [];
  dim = some 2;
  total = 1;
  source_checksum = none;
}
