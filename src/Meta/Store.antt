-- ===== src/Meta/Store.antt =====
-- `MetaStore` of src/python/hypervec_meta_store.py: the entries in memory, and the JSON file that
-- every change rewrites. `json.dumps` and `json.loads` are parameters. The lock makes each method one step. The file is written beside and
-- renamed, so it is the old text or the new one.
pub mod Reload
use hyper_vector.Common.{
  ℕ, ◌+◌, String, ◌≡◌, ◌≢◌, refl, Bool, true, false, Option, none, some, List, [], ◌∷◌, All,
}
use hyper_vector.Common.Dict
use hyper_vector.Common.Dict.{Dict, string_key}
use hyper_vector.Common.Result.{
  Result, ok, err, value_error, type_error, key_error, file_exists, ◌>>=◌,
}
use hyper_vector.Json.{Json, obj, Fields, end, field}
use hyper_vector.Bundle.Lines.{Text}
use hyper_vector.Meta.Defs.{CollectionMeta, ready}
use hyper_vector.Meta.Codec.{to_dict, from_dict, IsStorable}
use hyper_vector.Meta.Codec.RoundTrip.{from_dict-to_dict}

-- `path` is the text of the file, `none` before it is first written.
pub record MetaStore : Type 0 where
  pub entries : Dict String CollectionMeta
  pub path : Option Text

-- {name: meta.to_dict() for name, meta in self._data.items()}
unfoldable pub dump : Dict String CollectionMeta → Fields
unfolding to_dict
dump [] = end
dump ((k, m) ∷ d) = field k (obj (to_dict m)) (dump d)

abbrev pub parse_meta : ℕ → Json → Result CollectionMeta
parse_meta now (obj d) = from_dict now d
parse_meta now _ = err type_error

-- {name: CollectionMeta.from_dict(meta) for name, meta in raw.items()}
unfoldable pub parse : ℕ → Fields → Result (Dict String CollectionMeta)
unfolding from_dict
parse now end = ok []
parse now (field k j r) = do m ← parse_meta now j; ms ← parse now r; ok ((k, m) ∷ ms)

-- A text that is no JSON is a ValueError.
abbrev pub parse_document : ℕ → Option Json → Result (Dict String CollectionMeta)
parse_document now none = err value_error
parse_document now (some (obj raw)) = parse now raw
parse_document now (some _) = err type_error

-- `__init__` with `_load`; `loads` is `json.loads`.
unfoldable pub load : (Text → Option Json) → ℕ → Option Text → Result MetaStore
unfolding parse
load loads now none = ok (record { entries = []; path = none })
load loads now (some text) = do
  ms ← parse_document now (loads text)
  ok (record { entries = ms; path = some text })

-- `dumps` is `json.dumps` with `sort_keys=True`.
unfoldable pub flush : (Json → Text) → MetaStore → MetaStore
unfolding dump
flush dumps s = record s { path = some (dumps (obj (dump s.entries))) }

unfoldable pub list_all : MetaStore → List CollectionMeta
list_all s = Dict.values s.entries

unfoldable pub get : MetaStore → String → Option CollectionMeta
get s name = Dict.get s.entries name

-- The arguments of `create`.
pub record NewCollection : Type 0 where
  pub schema : Fields
  pub index_params : Fields
  pub id_field : String
  pub vector_field : String
  pub text_field : String
  pub index_path : String

unfoldable pub new_meta : ℕ → String → NewCollection → CollectionMeta
new_meta now name c = record {
  collection_name = name;
  version = 1;
  schema = c.schema;
  index_params = c.index_params;
  id_field = c.id_field;
  vector_field = c.vector_field;
  text_field = c.text_field;
  dim = none;
  total = 0;
  index_path = c.index_path;
  index_checksum = none;
  index_size_bytes = none;
  created_at = now;
  updated_at = now;
  flushed_at = none;
  data_state = ready;
  last_known_total = none;
  last_exported_at = none;
  last_purged_at = none;
  bundle_format = none;
  data_version = 1;
  index_version = 0;
  exported_data_version = none;
  exported_bundle_checksum = none;
  exported_index_version = none;
  exported_index_checksum = none;
  import_txn = none;
}

-- self._data[name] = meta; self._flush()
save : (Json → Text) → MetaStore → String → CollectionMeta → MetaStore
unfolding flush
save dumps s name m = flush dumps (record s { entries = Dict.put s.entries name m })

-- The result is a copy, made through the document.
unfoldable pub create :
    (Json → Text) → ℕ → MetaStore → String → NewCollection → Result CollectionMeta × MetaStore
unfolding get new_meta save
create dumps now s name c = elim (get s name) [
  | some m ↦ (err file_exists, s)
  | none ↦ (from_dict now (to_dict (new_meta now name c)), save dumps s name (new_meta now name c))
]

-- `update`, with the keyword arguments as a change of the entry. The other two setters differ in the
-- version that they write first.
write_entry :
    (Json → Text)
    → ℕ
    → MetaStore
    → String
    → (CollectionMeta → CollectionMeta)
    → Option CollectionMeta
    → Result CollectionMeta × MetaStore
unfolding save
write_entry dumps now s name change none = (err key_error, s)
write_entry dumps now s name change (some m) =
    let m' = record (change m) { updated_at = now } in
    (from_dict now (to_dict m'), save dumps s name m')

write :
    (Json → Text)
    → ℕ
    → MetaStore
    → String
    → (CollectionMeta → CollectionMeta)
    → Result CollectionMeta × MetaStore
unfolding get write_entry
write dumps now s name change = write_entry dumps now s name change (get s name)

unfoldable pub update :
    (Json → Text)
    → ℕ
    → MetaStore
    → String
    → (CollectionMeta → CollectionMeta)
    → Result CollectionMeta × MetaStore
unfolding write
update dumps now s name change = write dumps now s name change

unfoldable pub bump_version :
    (Json → Text)
    → ℕ
    → MetaStore
    → String
    → (CollectionMeta → CollectionMeta)
    → Result CollectionMeta × MetaStore
unfolding write
bump_version dumps now s name change =
    write dumps now s name (λ m. change (record m { version = m.version + 1 }))

unfoldable pub set_version :
    (Json → Text)
    → ℕ
    → MetaStore
    → String
    → ℕ
    → (CollectionMeta → CollectionMeta)
    → Result CollectionMeta × MetaStore
unfolding write
set_version dumps now s name version change =
    write dumps now s name (λ m. change (record m { version = version }))

unfoldable pub delete : (Json → Text) → MetaStore → String → Bool × MetaStore
unfolding get flush
delete dumps s name = elim (get s name) [
  | none ↦ (false, s)
  | some m ↦ (true, flush dumps (record s { entries = Dict.remove s.entries name }))
]

-- A change of one entry: the file then holds the new entries, the changed entry is stored with its
-- new time and, if it is storable, the copy returned equals it; all others are as they were.
pub update-stored :
    (dumps : Json → Text) (now : ℕ) (s : MetaStore) (name other : String) (m : CollectionMeta)
    (change : CollectionMeta → CollectionMeta)
    → get s name ≡ some m
    → IsStorable (record (change m) { updated_at = now })
    → name ≢ other
    → let s' = (update dumps now s name change).1 in
      ((update dumps now s name change).0 ≡ ok (record (change m) { updated_at = now }))
      × (get s' name ≡ some (record (change m) { updated_at = now }))
      × (get s' other ≡ get s other)
      × (s'.path ≡ some (dumps (obj (dump s'.entries))))
unfolding update write save flush get
update-stored dumps now s name other m change h v ne =
    let found : Dict.get s.entries name ≡ some m = h in
    rw found (
      from_dict-to_dict now _ v,
      Dict.get-put_self s.entries name _,
      Dict.get-put_ne s.entries name _ other ne,
      refl,
    )
