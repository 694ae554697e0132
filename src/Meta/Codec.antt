-- ===== src/Meta/Codec.antt =====
-- `CollectionMeta.to_dict` and `from_dict` (src/python/hypervec_meta_store.py). A document whose
-- values have other JSON types than the program writes is read as `type_error`.
pub mod RoundTrip
pub mod Sorted
use hyper_vector.Common.{
  ℕ, String, ◌≡◌, ◌≢◌, refl, false, Option, none, some, arith, str_eq, eq_iff, if◌then◌else◌,
}
use hyper_vector.Common.Result.{Result, ok, err, type_error, key_error, ◌>>=◌}
use hyper_vector.Json.{
  Json, null, int, str, arr, obj, nil, Fields, end, field, get, is_empty, truthy,
}
use hyper_vector.Meta.Defs.{DataState, ready, purged, importing, invalid, ImportTxn, CollectionMeta}

pub state_to_text : DataState → String
state_to_text ready = "ready"
state_to_text purged = "purged"
state_to_text importing = "importing"
state_to_text invalid = "invalid"

pub state_of_text : String → Result DataState
state_of_text s =
    if str_eq s "ready"
    then ok ready
    else if str_eq s "purged"
    then ok purged
    else if str_eq s "importing"
    then ok importing
    else if str_eq s "invalid"
    then ok invalid
    else err type_error

abbrev opt_int : Option ℕ → Json
opt_int none = null
opt_int (some n) = int n

abbrev opt_str : Option String → Json
opt_str none = null
opt_str (some s) = str s

-- int(value), str(value), dict(value)
abbrev to_int : Json → Result ℕ
to_int (int n) = ok n
to_int _ = err type_error

abbrev to_str : Json → Result String
to_str (str s) = ok s
to_str _ = err type_error

abbrev to_fields : Json → Result Fields
to_fields (obj d) = ok d
to_fields _ = err type_error

-- data.get(key, default)
abbrev get_or : Fields → String → Json → Json
get_or d k v = elim (get d k) [ none ↦ v | some w ↦ w ]

-- data.get(key) or default
abbrev get_truthy : Fields → String → Json → Json
get_truthy d k v = let w = get_or d k null in if truthy w then w else v

abbrev nullable_int : Json → Result (Option ℕ)
nullable_int null = ok none
nullable_int (int n) = ok (some n)
nullable_int _ = err type_error

abbrev nullable_str : Json → Result (Option String)
nullable_str null = ok none
nullable_str (str s) = ok (some s)
nullable_str _ = err type_error

pub txn_to_dict : ImportTxn → Fields
unfolding state_to_text
txn_to_dict t = field "stage" (str t.stage) (
    field "new_data_version" (int t.new_data_version) (
      field "prev_state" (str (state_to_text t.prev_state)) (
        field "total" (int t.total)
          (field "dim" (opt_int t.dim) (field "source_checksum" (opt_str t.source_checksum) end)))))

pub txn_of_dict : Fields → Result ImportTxn
unfolding state_of_text
txn_of_dict d = do
  stage ← to_str (get_or d "stage" null)
  new_data_version ← to_int (get_or d "new_data_version" null)
  prev ← to_str (get_or d "prev_state" null)
  prev_state ← state_of_text prev
  total ← to_int (get_or d "total" null)
  dim ← nullable_int (get_or d "dim" null)
  source_checksum ← nullable_str (get_or d "source_checksum" null)
  ok (record {
    stage = stage;
    new_data_version = new_data_version;
    prev_state = prev_state;
    total = total;
    dim = dim;
    source_checksum = source_checksum;
  })

abbrev opt_txn : Option ImportTxn → Json
opt_txn none = null
opt_txn (some t) = obj (txn_to_dict t)

abbrev nullable_txn : Json → Result (Option ImportTxn)
nullable_txn null = ok none
nullable_txn (obj d) = do t ← txn_of_dict d; ok (some t)
nullable_txn _ = err type_error

unfoldable pub to_dict : CollectionMeta → Fields
unfolding state_to_text txn_to_dict
to_dict m = field "collection_name" (str m.collection_name) (
    field "version" (int m.version) (
      field "schema" (obj m.schema) (
        field "index_params" (obj m.index_params) (
          field "id_field" (str m.id_field) (
            field "vector_field" (str m.vector_field) (
              field "text_field" (str m.text_field) (
                field "dim" (opt_int m.dim) (
                  field "total" (int m.total) (
                    field "index_path" (str m.index_path) (
                      field "index_checksum" (opt_str m.index_checksum) (
                        field "index_size_bytes" (opt_int m.index_size_bytes) (
                          field "created_at" (int m.created_at) (
                            field "updated_at" (int m.updated_at) (
                              field "flushed_at" (opt_int m.flushed_at) (
                                field "data_state" (str (state_to_text m.data_state)) (
                                  field "last_known_total" (opt_int m.last_known_total) (
                                    field "last_exported_at" (opt_int m.last_exported_at) (
                                      field "last_purged_at" (opt_int m.last_purged_at) (
                                        field "bundle_format" (opt_str m.bundle_format) (
                                          field "data_version" (int m.data_version) (
                                            field "index_version" (int m.index_version) (
                                              field "exported_data_version"
                                                (opt_int m.exported_data_version)
                                                (field "exported_bundle_checksum"
                                                  (opt_str m.exported_bundle_checksum)
                                                  (field "exported_index_version"
                                                    (opt_int m.exported_index_version)
                                                    (field "exported_index_checksum"
                                                      (opt_str m.exported_index_checksum)
                                                      (field "import_txn" (opt_txn m.import_txn)
                                                        end))))))))))))))))))))))))))

-- `now` is what `time.time()` returns.
unfoldable pub from_dict : ℕ → Fields → Result CollectionMeta
unfolding get truthy txn_of_dict state_of_text
from_dict now d = do
  collection_name ← elim (get d "collection_name") [ none ↦ err key_error | some v ↦ to_str v ]
  version ← to_int (get_or d "version" (int 1))
  schema ← to_fields (get_truthy d "schema" (obj end))
  index_params ← to_fields (get_truthy d "index_params" (obj (field "indexes" (arr nil) end)))
  id_field ← to_str (get_truthy d "id_field" (str "id"))
  vector_field ← to_str (get_truthy d "vector_field" (str "vector"))
  text_field ← to_str (get_truthy d "text_field" (str "contents"))
  dim ← nullable_int (get_or d "dim" null)
  total ← to_int (get_or d "total" (int 0))
  index_path ← to_str (get_truthy d "index_path" (str ""))
  index_checksum ← nullable_str (get_or d "index_checksum" null)
  index_size_bytes ← nullable_int (get_or d "index_size_bytes" null)
  created_at ← to_int (get_truthy d "created_at" (int now))
  updated_at ← to_int (get_truthy d "updated_at" (int now))
  flushed_at ← nullable_int (get_or d "flushed_at" null)
  state ← to_str (get_truthy d "data_state" (str "ready"))
  data_state ← state_of_text state
  last_known_total ← nullable_int (get_or d "last_known_total" null)
  last_exported_at ← nullable_int (get_or d "last_exported_at" null)
  last_purged_at ← nullable_int (get_or d "last_purged_at" null)
  bundle_format ← nullable_str (get_or d "bundle_format" null)
  data_version ← to_int (get_or d "data_version" (int 1))
  index_version ← to_int (get_or d "index_version" (int 0))
  exported_data_version ← nullable_int (get_or d "exported_data_version" null)
  exported_bundle_checksum ← nullable_str (get_or d "exported_bundle_checksum" null)
  exported_index_version ← nullable_int (get_or d "exported_index_version" null)
  exported_index_checksum ← nullable_str (get_or d "exported_index_checksum" null)
  import_txn ← nullable_txn (get_or d "import_txn" null)
  ok (record {
    collection_name = collection_name;
    version = version;
    schema = schema;
    index_params = index_params;
    id_field = id_field;
    vector_field = vector_field;
    text_field = text_field;
    dim = dim;
    total = total;
    index_path = index_path;
    index_checksum = index_checksum;
    index_size_bytes = index_size_bytes;
    created_at = created_at;
    updated_at = updated_at;
    flushed_at = flushed_at;
    data_state = data_state;
    last_known_total = last_known_total;
    last_exported_at = last_exported_at;
    last_purged_at = last_purged_at;
    bundle_format = bundle_format;
    data_version = data_version;
    index_version = index_version;
    exported_data_version = exported_data_version;
    exported_bundle_checksum = exported_bundle_checksum;
    exported_index_version = exported_index_version;
    exported_index_checksum = exported_index_checksum;
    import_txn = import_txn;
  })

-- What `or` does not replace by a default: no empty field name, no empty index parameters, no time
-- at the epoch.
pub record IsStorable (m : CollectionMeta) : Type 0 where
  pub id_named : str_eq m.id_field "" ≡ false
  pub vector_named : str_eq m.vector_field "" ≡ false
  pub text_named : str_eq m.text_field "" ≡ false
  pub has_params : is_empty m.index_params ≡ false
  pub created : m.created_at ≢ 0
  pub updated : m.updated_at ≢ 0
