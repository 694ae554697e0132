-- ===== src/Engine/Purge/Laws.antt =====
-- What a purge leaves, and when it is refused (src/python/hypervec_server_engine.py).
use hyper_vector.Common.{
  ℕ, ◌+◌, ◌≡◌, refl, String, Bool, true, Option, none, some, arith, ==_iff, eq_refl, eq_iff, ◌⊎◌,
  inl, inr,
}
use hyper_vector.Common.Result.{ok, err, conflict_error}
use hyper_vector.Meta.{CollectionMeta, purged}
use hyper_vector.Scalar.{count}
use hyper_vector.Engine.State.{Collection, empty_dir}
use hyper_vector.Engine.Purge.{purge_collection_data, purged_of, is_exported, is_at, same_text}

-- The last export covers the data, the index, and the index's content.
pub record IsCovered (m : CollectionMeta) : Type 0 where
  pub rows : m.exported_data_version ≡ some m.data_version
  pub index : m.exported_index_version ≡ some m.index_version
  pub content : m.exported_index_checksum ≡ m.index_checksum

at_eq : (o : Option ℕ) (n : ℕ) → is_at o n ≡ true → o ≡ some n
at_eq none n h = cc
at_eq (some m) n h = ground arith

same_text_eq : (a b : Option String) → same_text a b ≡ true → a ≡ b
same_text_eq none none h = refl
same_text_eq none (some b) h = cc
same_text_eq (some a) none h = cc
same_text_eq (some a) (some b) h = ground (arith, eq_iff a b)

exported-IsCovered : (m : CollectionMeta) → is_exported m ≡ true → IsCovered m
unfolding is_exported
exported-IsCovered m h = record {
  rows = at_eq m.exported_data_version m.data_version (ground arith);
  index = at_eq m.exported_index_version m.index_version (ground arith);
  content = same_text_eq m.exported_index_checksum m.index_checksum (ground arith);
}

at_some : (o : Option ℕ) (n : ℕ) → o ≡ some n → is_at o n ≡ true
at_some o n h = rw h ((==_iff n n).1 refl)

same_text_refl : (o : Option String) → same_text o o ≡ true
same_text_refl none = refl
same_text_refl (some a) = eq_refl a

pub covered_lem : (m : CollectionMeta) → IsCovered m → is_exported m ≡ true
unfolding is_exported
covered_lem m c =
    rw
      (
        at_some m.exported_data_version m.data_version c.rows,
        at_some m.exported_index_version m.index_version c.index,
        c.content,
      )
      (same_text_refl m.index_checksum)

module _ {Index : Type 0} (now : ℕ) (s : Collection Index) (m : CollectionMeta) where
  purge_or_refuse :
      s.meta ≡ some m
      → ((purge_collection_data now true s ≡ (err conflict_error, s)) ⊎ (is_exported m ≡ true))
  unfolding purge_collection_data
  purge_or_refuse e = ground arith

  -- A purge that asks for an export goes through only if the last export covers the version of the
  -- data, the version of the index and the digest of the index; otherwise it raises a conflict and
  -- changes nothing.
  pub purge-IsCovered :
      s.meta ≡ some m → (purge_collection_data now true s ≡ (err conflict_error, s)) ⊎ IsCovered m
  purge-IsCovered e = elim (purge_or_refuse e) [
    | inl refused ↦ inl refused
    | inr covered ↦ inr (exported-IsCovered m covered)
  ]

  -- A purge that returns leaves no file of the directory, no table, live or staged, and no index
  -- in memory; the entry is kept, is marked purged, has no rows and a new data version, and no export
  -- covers it. The result is the number of rows that were there.
  pub purge-erases :
      (require_exported : Bool) (n : ℕ)
      → s.meta ≡ some m
      → (purge_collection_data now require_exported s).0 ≡ ok n
      → let r = purge_collection_data now require_exported s in
        (n ≡ count s.tables)
        × (r.1.dir ≡ empty_dir)
        × (r.1.tables ≡ record { live = none; staging = none })
        × (r.1.loaded ≡ none)
        × ((m' : CollectionMeta) × (r.1.meta ≡ some m')
            × (m'.collection_name ≡ m.collection_name)
            × (m'.data_state ≡ purged)
            × (m'.total ≡ 0)
            × (m'.data_version ≡ m.data_version + 1)
            × ¬ IsCovered m')
  unfolding purge_collection_data count
  purge-erases b n e h = (
    ground arith,
    ground arith,
    ground arith,
    ground arith,
    (
      record (purged_of now n m.data_version m) { updated_at = now },
      ground arith,
      refl,
      refl,
      refl,
      refl,
      λ c. ground (arith, c.rows),
    ),
  )

  pub exported_purge :
      s.meta ≡ some m
      → is_exported m ≡ true
      → (purge_collection_data now true s).0 ≡ ok (count s.tables)
  unfolding purge_collection_data
  exported_purge e h = ground arith
