-- ===== src/Engine/Upload/Laws.antt =====
-- What an upload of an index leaves (src/python/hypervec_server_engine.py).
use hyper_vector.Common.{
  ℕ, ◌+◌, ◌≤◌, ◌≡◌, ◌≢◌, refl, String, true, false, Option, none, some, List, arith, max, length,
  eq_refl, inl, inr,
}
use hyper_vector.Common.Result.{ok, err, conflict_error}
use hyper_vector.Meta.{CollectionMeta}
use hyper_vector.Engine.State.{Collection, Host, meta_or_raise, meta_update}
use hyper_vector.Engine.Flush.{Flushed, flushed_of, read_index}
use hyper_vector.Engine.Upload.{upload_index, version_or, Sync, sync_check}
use hyper_vector.Engine.Purge.{purge_collection_data}
use hyper_vector.Engine.Purge.Laws.{purge-IsCovered}

module _ {Index : Type 0} (host : Host Index) (now : ℕ) (source : Option (List ℕ))
    (version : Option ℕ) (checksum : Option String) where
  open host use {codec, hypervec}

  -- The collection `t` after an upload to `s`, whose entry was `m`.
  pub record IsUploaded (s : Collection Index) (m : CollectionMeta) (answer : Flushed)
      (t : Collection Index) : Type 0 where
    pub bytes : List ℕ
    pub index : Index
    pub entry : CollectionMeta
    pub sent : source ≡ some bytes
    pub readable : hypervec.read_index bytes ≡ some index
    pub stored : t.meta ≡ some entry
    pub newer : m.version ≤ entry.version
    pub covered : entry.index_version ≡ m.data_version
    pub digest : entry.index_checksum ≡ some (codec.sha256 bytes)
    pub exported : entry.exported_index_checksum ≡ m.exported_index_checksum
    pub answered : answer ≡ flushed_of entry
    pub file : t.dir.index ≡ some bytes
    pub loaded : t.loaded ≡ some index
    pub rows : t.tables ≡ s.tables

  module _ (s : Collection Index) (m : CollectionMeta) (answer : Flushed) (stored : s.meta ≡ some m)
      (done : (upload_index host now source version checksum s).0 ≡ ok answer) where
    -- An upload that returns has put the file that was sent, which can be read as an index, in place of the
    -- index file and in memory. The entry has its digest, covers the version of the data, and its
    -- version is not lower than before; the rows are the same.
    pub upload-IsUploaded :
        IsUploaded s m answer (upload_index host now source version checksum s).1
    unfolding upload_index meta_or_raise meta_update read_index
    upload-IsUploaded = by_source source refl
      where
        by_index :
            (bytes : List ℕ) (o : Option Index)
            → source ≡ some bytes
            → hypervec.read_index bytes ≡ o
            → IsUploaded s m answer (upload_index host now source version checksum s).1
        by_index bytes none e f = absurd (ground arith)
        by_index bytes (some index) e f = record {
          bytes = bytes;
          index = index;
          entry = record m {
            version = max (version_or version (m.version + 1)) m.version;
            flushed_at = some now;
            index_version = m.data_version;
            index_checksum = some (codec.sha256 bytes);
            index_size_bytes = some (length bytes);
            updated_at = now;
          };
          sent = e;
          readable = f;
          stored = ground arith;
          newer = omega arith;
          covered = refl;
          digest = refl;
          exported = refl;
          answered = ground arith;
          file = ground arith;
          loaded = ground arith;
          rows = ground arith;
        }

        by_source :
            (o : Option (List ℕ))
            → source ≡ o
            → IsUploaded s m answer (upload_index host now source version checksum s).1
        by_source none e = absurd (ground arith)
        by_source (some bytes) e = by_index bytes (hypervec.read_index bytes) e refl

    -- A client that has what the upload answered is in sync with the collection.
    pub upload-sync_check :
        (x : Sync) × ((sync_check host answer.version answer.index_checksum
            (upload_index host now source version checksum s).1).0
          ≡ ok x)
        × (x.needs_sync ≡ false)
    unfolding sync_check meta_or_raise flushed_of
    upload-sync_check =
        let u = upload-IsUploaded in
        (
          record {
            needs_sync = false;
            server_version = u.entry.version;
            index_checksum = u.entry.index_checksum;
            index_size_bytes = u.entry.index_size_bytes;
          },
          ground (arith, u.stored, u.answered, u.digest, eq_refl (codec.sha256 u.bytes)),
          refl,
        )

    -- An export from before an upload does not allow a purge after it: where the digest of the exported
    -- index is not that of the file that was sent, a purge that asks for an export is refused and changes
    -- nothing.
    pub upload-no_purge :
        (later : ℕ) (bytes : List ℕ)
        → source ≡ some bytes
        → m.exported_index_checksum ≢ some (codec.sha256 bytes)
        → let t = (upload_index host now source version checksum s).1 in
          purge_collection_data later true t ≡ (err conflict_error, t)
    upload-no_purge later bytes e ne =
        let u = upload-IsUploaded in
        elim (purge-IsCovered later (upload_index host now source version checksum s).1 u.entry
          u.stored) [
            | inl refused ↦ refused
            | inr c ↦ absurd (ground (arith, c.content, u.exported, u.digest, u.sent))
          ]
