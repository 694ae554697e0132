-- ===== src/Bundle/Archive/RoundTrip.antt =====
-- A bundle that `create_bundle` wrote is read back by `read_bundle` (src/python/hypervec_bundle.py).
use hyper_vector.Common.{
  ℕ, ◌+◌, ◌≡◌, refl, String, true, false, Option, none, some, List, [], ◌∷◌, All, ltb, eq_refl,
  str_eq,
}
use hyper_vector.Common.Result.{ok}
use hyper_vector.Json.{obj, str, Fields, truthy}
use hyper_vector.Meta.{CollectionMeta}
use hyper_vector.Library.{Codec, IsCodec}
use hyper_vector.Bundle.Lines.{IsRow, parse_rows-join_lines}
use hyper_vector.Bundle.Labels.Laws.{IsNumbered, validate-numbered}
use hyper_vector.Bundle.Archive.{
  manifest_name, index_name, scalar_name, max_uncompressed_bytes, Entry, scalar_bytes,
  schema_checksum, manifest_of, entry_of, create_bundle, is_bomb, read_members, read_checked,
  read_bundle, as_fields, opt_int, read_dim,
}

truthy-str : (s : String) → str_eq s "" ≡ false → truthy (str s) ≡ true
unfolding truthy
truthy-str s h = rw h

read_dim-opt_int : (d : Option ℕ) → read_dim (some (opt_int d)) ≡ ok d
read_dim-opt_int none = refl
read_dim-opt_int (some n) = refl

-- The guards against archive bombs let an entry pass.
pub record IsModest (a b d : Entry) : Type 0 where
  pub first : is_bomb a ≡ false
  pub second : is_bomb b ≡ false
  pub third : is_bomb d ≡ false
  pub small : ltb max_uncompressed_bytes (0 + a.file_size + b.file_size + d.file_size) ≡ false

module _ (c : Codec) (laws : IsCodec c) (now : ℕ) (name : String) (index_bytes : List ℕ)
    (rows : List Fields) (meta : CollectionMeta) where
  abbrev manifest : Fields
  manifest = manifest_of c now name index_bytes rows meta

  abbrev manifest_entry : Entry
  manifest_entry = entry_of c manifest_name (c.dumps (obj manifest))

  abbrev index_entry : Entry
  index_entry = entry_of c index_name index_bytes

  abbrev scalar_entry : Entry
  scalar_entry = entry_of c scalar_name (scalar_bytes c rows)

  abbrev pub IsExported : Type 0
  IsExported =
      All (IsRow (λ row. c.dumps (obj row)) (λ l. as_fields (c.loads l))) rows
      × IsNumbered meta.dim 0 rows
      × IsModest manifest_entry index_entry scalar_entry
      × (c.loads (c.dumps (obj manifest)) ≡ some (obj manifest))

  members :
      IsModest manifest_entry index_entry scalar_entry
      → c.loads (c.dumps (obj manifest)) ≡ some (obj manifest)
      → read_members c (manifest_entry ∷ index_entry ∷ scalar_entry ∷ [])
        ≡ ok (manifest, index_bytes, scalar_bytes c rows)
  unfolding read_members entry_of
  members m l = rw (m.first, m.second, m.third, m.small, l)

  schema_named : str_eq (schema_checksum c meta.schema) "" ≡ false
  unfolding schema_checksum
  schema_named = laws.sha256-named (c.dumps (obj meta.schema))

  checked :
      IsExported
      → read_checked c (manifest, index_bytes, scalar_bytes c rows)
        ≡ ok (manifest, index_bytes, rows)
  unfolding read_checked manifest_of
  checked h = rw (
    laws.sha256-named index_bytes,
    laws.sha256-named (scalar_bytes c rows),
    schema_named,
    eq_refl (c.sha256 index_bytes),
    eq_refl (c.sha256 (scalar_bytes c rows)),
    parse_rows-join_lines (λ row. c.dumps (obj row)) (λ l. as_fields (c.loads l)) rows h.0,
    read_dim-opt_int meta.dim,
    validate-numbered rows meta.dim h.1,
  )

  -- What `create_bundle` writes, `read_bundle` reads: the same manifest, index bytes and rows. The rows
  -- are numbered from 0 with vectors of the collection's dimension, each row's JSON text is one line,
  -- the three entries stay within the limits on size and compression, and `json.loads` reads the rows and
  -- the manifest that `json.dumps` wrote.
  pub read_bundle-create_bundle :
      IsExported
      → read_bundle c (some (create_bundle c now name index_bytes rows meta).1)
        ≡ ok (manifest, index_bytes, rows)
  unfolding read_bundle create_bundle
  read_bundle-create_bundle h = rw (members h.2 h.3) (checked h)
