-- ===== src/Bundle/Archive.antt =====
-- `create_bundle` and `read_bundle` of src/python/hypervec_bundle.py.
pub mod RoundTrip
use hyper_vector.Common.{
  ℕ, ◌+◌, ◌*◌, ◌^◌, String, Bool, true, false, not, ◌&&◌, ◌||◌, Option, none, some, List, [], ◌∷◌,
  map, ltb, ◌==◌, str_eq, if◌then◌else◌, length,
}
use hyper_vector.Common.Result.{
  Result, ok, err, value_error, type_error, file_not_found, refuse, or_raise, ◌>>=◌, ◌>>◌,
}
use hyper_vector.Json.{Json, null, int, str, obj, Fields, end, field, get, truthy}
use hyper_vector.Meta.{CollectionMeta}
use hyper_vector.Library.{Codec}
use hyper_vector.Bundle.Lines.{Text, join_lines, parse_rows}
use hyper_vector.Bundle.Labels.{validate_index_label_mapping, label_strategy_implicit_sequential}

abbrev pub bundle_format : String
bundle_format = "hypervector.collection.bundle.v1"

abbrev pub manifest_name : String
manifest_name = "manifest.json"

abbrev pub index_name : String
index_name = "index.hypervec"

abbrev pub scalar_name : String
scalar_name = "scalar.jsonl"

-- 8 GiB
abbrev pub max_uncompressed_bytes : ℕ
max_uncompressed_bytes = 8589934592

abbrev pub max_compression_ratio : ℕ
max_compression_ratio = 200

-- An entry of a ZIP archive: `ZipInfo` and what `ZipFile.read` returns.
pub record Entry : Type 0 where
  pub filename : String
  pub file_size : ℕ
  pub compress_size : ℕ
  pub content : List ℕ

-- A file on disk that is opened as a bundle.
pub data BundleFile : Type 0 where
  zip : List Entry → BundleFile
  not_zip : List ℕ → BundleFile

abbrev pub opt_int : Option ℕ → Json
opt_int none = null
opt_int (some n) = int n

module _ (c : Codec) where
  unfoldable pub schema_checksum : Fields → String
  schema_checksum schema = c.sha256 (c.dumps (obj schema))

  abbrev pub scalar_bytes : List Fields → Text
  scalar_bytes rows = join_lines (map (λ row. c.dumps (obj row)) rows)

  unfoldable pub manifest_of : ℕ → String → List ℕ → List Fields → CollectionMeta → Fields
  unfolding schema_checksum
  manifest_of now collection_name index_bytes rows meta = field "format" (str bundle_format) (
      field "collection_name" (str collection_name) (
        field "version" (int meta.version) (
          field "dim" (opt_int meta.dim) (
            field "total" (int (length rows)) (
              field "id_field" (str meta.id_field) (
                field "vector_field" (str meta.vector_field) (
                  field "text_field" (str meta.text_field) (
                    field "index_checksum" (str (c.sha256 index_bytes)) (
                      field "index_size_bytes" (int (length index_bytes)) (
                        field "scalar_checksum" (str (c.sha256 (scalar_bytes rows))) (
                          field "schema_checksum" (str (schema_checksum meta.schema)) (
                            field "label_strategy" (str label_strategy_implicit_sequential)
                              (field "exported_at" (int now) end)))))))))))))

  -- zf.writestr(name, content)
  unfoldable pub entry_of : String → List ℕ → Entry
  entry_of name content = record {
    filename = name;
    file_size = length content;
    compress_size = c.deflated content;
    content = content;
  }

  -- The manifest, and the file that is renamed into place.
  unfoldable pub create_bundle :
      ℕ → String → List ℕ → List Fields → CollectionMeta → Fields × BundleFile
  unfolding manifest_of entry_of
  create_bundle now collection_name index_bytes rows meta =
      let manifest = manifest_of now collection_name index_bytes rows meta in
      (
        manifest,
        zip (
            entry_of manifest_name (c.dumps (obj manifest))
            ∷ entry_of index_name index_bytes
            ∷ entry_of scalar_name (scalar_bytes rows)
            ∷ []),
      )

-- name in _ALLOWED_MEMBERS
unfoldable pub is_allowed : String → Bool
is_allowed s = str_eq s manifest_name || str_eq s index_name || str_eq s scalar_name

unfoldable pub all_allowed : List Entry → Bool
unfolding is_allowed
all_allowed [] = true
all_allowed (e ∷ es) = is_allowed e.filename && all_allowed es

-- info.file_size / info.compress_size > _MAX_COMPRESSION_RATIO, for a nonempty entry
unfoldable pub is_bomb : Entry → Bool
is_bomb e = ltb 0 e.compress_size && ltb (max_compression_ratio * e.compress_size) e.file_size

-- The loop over the entries: the size so far, or the error of a bad ratio.
unfoldable pub uncompressed : List Entry → ℕ → Result ℕ
unfolding is_bomb
uncompressed [] n = ok n
uncompressed (e ∷ es) n = do refuse (is_bomb e) value_error; uncompressed es (n + e.file_size)

-- zf.read(name): of entries with one name the last counts.
unfoldable pub read_member : String → List Entry → Option (List ℕ)
read_member name [] = none
read_member name (e ∷ es) = elim (read_member name es) [
  | some content ↦ some content
  | none ↦ if str_eq e.filename name then some e.content else none
]

-- A JSON text that has to be a dictionary.
abbrev pub as_fields : Option Json → Option Fields
as_fields (some (obj d)) = some d
as_fields _ = none

abbrev pub is_str : Option Json → String → Bool
is_str (some (str s)) t = str_eq s t
is_str _ t = false

-- manifest.get(name) as a truth value
abbrev pub has : Fields → String → Bool
has d k = elim (get d k) [ none ↦ false | some v ↦ truthy v ]

-- int(manifest["total"]): `None` and an absent entry are refused before.
abbrev pub read_total : Option Json → Result ℕ
read_total none = err value_error
read_total (some null) = err value_error
read_total (some (int n)) = ok n
read_total (some _) = err type_error

abbrev pub read_dim : Option Json → Result (Option ℕ)
read_dim none = ok none
read_dim (some null) = ok none
read_dim (some (int n)) = ok (some n)
read_dim (some _) = err type_error

abbrev pub read_strategy : Option Json → String
read_strategy none = label_strategy_implicit_sequential
read_strategy (some (str s)) = s
read_strategy (some _) = ""

module _ (c : Codec) where
  -- The part under `with zipfile.ZipFile(...)`: the three members.
  unfoldable pub read_members : List Entry → Result (Fields × List ℕ × List ℕ)
  unfolding all_allowed uncompressed read_member
  read_members infos = do
    refuse (not (all_allowed infos)) value_error
    total ← uncompressed infos 0
    refuse (ltb max_uncompressed_bytes total) value_error
    manifest_bytes ← or_raise value_error (read_member manifest_name infos)
    index_bytes ← or_raise value_error (read_member index_name infos)
    scalar_bytes ← or_raise value_error (read_member scalar_name infos)
    manifest ← or_raise value_error (as_fields (c.loads manifest_bytes))
    ok (manifest, index_bytes, scalar_bytes)

  unfoldable pub read_checked : Fields × List ℕ × List ℕ → Result (Fields × List ℕ × List Fields)
  unfolding get truthy parse_rows validate_index_label_mapping
  read_checked (manifest, index_bytes, scalar_bytes) = do
    refuse (not (is_str (get manifest "format") bundle_format)) value_error
    refuse
        (not (
          has manifest "index_checksum"
          && has manifest "scalar_checksum"
          && has manifest "schema_checksum"))
        value_error
    refuse (not (is_str (get manifest "index_checksum") (c.sha256 index_bytes))) value_error
    refuse (not (is_str (get manifest "scalar_checksum") (c.sha256 scalar_bytes))) value_error
    scalar_rows ← parse_rows (λ l. as_fields (c.loads l)) scalar_bytes
    total ← read_total (get manifest "total")
    dim ← read_dim (get manifest "dim")
    validate_index_label_mapping scalar_rows total dim
        (read_strategy (get manifest "label_strategy"))
    ok (manifest, index_bytes, scalar_rows)

  unfoldable pub read_bundle : Option BundleFile → Result (Fields × List ℕ × List Fields)
  unfolding read_members read_checked
  read_bundle none = err file_not_found
  read_bundle (some (not_zip bytes)) = err value_error
  read_bundle (some (zip infos)) = do members ← read_members infos; read_checked members
