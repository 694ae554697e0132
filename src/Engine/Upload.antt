-- ===== src/Engine/Upload.antt =====
-- `upload_index`, `index_path_for_download`, `sync_check` of src/python/hypervec_server_engine.py.
pub mod Laws
use hyper_vector.Common.{
  ℕ, ◌+◌, String, Bool, false, not, ◌&&◌, ◌||◌, Option, none, some, List, ◌==◌, str_eq, ltb, max,
}
use hyper_vector.Common.Result.{value_error, file_not_found}
use hyper_vector.Common.Exec.{pure, lift, gets, modify, refuse, or_raise, ◌>>=◌, ◌>>◌}
use hyper_vector.Engine.State.{Host, Method, meta_or_raise, meta_update, checksum_of, size_of}
use hyper_vector.Engine.Flush.{Flushed, flushed_of, read_index}

-- version is not None and int(version) < int(meta.version)
abbrev is_older : Option ℕ → ℕ → Bool
is_older none v = false
is_older (some n) v = ltb n v

-- `checksum and checksum != actual`: an empty text asks for no check.
abbrev pub differs : Option String → String → Bool
differs none actual = false
differs (some s) actual = not (str_eq s "") && not (str_eq s actual)

abbrev version_or : Option ℕ → ℕ → ℕ
version_or none v = v
version_or (some n) v = n

-- The answer of `sync_check`.
pub record Sync : Type 0 where
  pub needs_sync : Bool
  pub server_version : ℕ
  pub index_checksum : Option String
  pub index_size_bytes : Option ℕ

-- client_checksum and meta.index_checksum and client_checksum != meta.index_checksum
abbrev checksum_moved : Option String → Option String → Bool
checksum_moved (some c) (some s) = not (str_eq c "") && (not (str_eq s "") && not (str_eq c s))
checksum_moved _ _ = false

module _ {Index : Type 0} (host : Host Index) where
  open host use {codec, hypervec}

  -- `source` is the uploaded file; `version` and `checksum` may be left out.
  unfoldable pub upload_index :
      ℕ → Option (List ℕ) → Option ℕ → Option String → Method Index Flushed
  unfolding meta_or_raise meta_update read_index flushed_of
  upload_index now source version checksum = do
    meta ← meta_or_raise
    refuse (is_older version meta.version) value_error
    bytes ← or_raise file_not_found source
    refuse (differs checksum (codec.sha256 bytes)) value_error
    index ← lift (read_index host (some bytes))
    modify (λ s. record s { dir = record s.dir { index = some bytes; upload_tmp = none } })
    updated ← meta_update now (λ m. record m {
      version = max (version_or version (meta.version + 1)) meta.version;
      flushed_at = some now;
      index_version = meta.data_version;
      index_checksum = checksum_of codec (some bytes);
      index_size_bytes = size_of (some bytes);
    })
    modify (λ s. record s { loaded = some index })
    pure (flushed_of updated)

  -- The file that the download sends.
  unfoldable pub index_path_for_download : Method Index (List ℕ)
  unfolding meta_or_raise
  index_path_for_download = do
    meta_or_raise
    file ← gets (λ s. s.dir.index)
    or_raise file_not_found file

  unfoldable pub sync_check : ℕ → Option String → Method Index Sync
  unfolding meta_or_raise
  sync_check client_version client_checksum = do
    meta ← meta_or_raise
    pure (record {
      needs_sync =
          not (client_version == meta.version)
          || checksum_moved client_checksum meta.index_checksum;
      server_version = meta.version;
      index_checksum = meta.index_checksum;
      index_size_bytes = meta.index_size_bytes;
    })
