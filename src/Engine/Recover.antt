-- ===== src/Engine/Recover.antt =====
-- `_recover_interrupted_imports` of src/python/hypervec_server_engine.py, at one collection, and a
-- crash with the restart that follows.
pub mod Stops
pub mod Crash
pub mod Gaps
use hyper_vector.Common.{
  ℕ, ◌+◌, Bool, true, false, not, ◌&&◌, Option, none, some, List, ◌==◌, if◌then◌else◌,
}
use hyper_vector.Common.Result.{Result, ok, err}
use hyper_vector.Library.{Codec}
use hyper_vector.Meta.{CollectionMeta, ImportTxn, DataState, ready, invalid}
use hyper_vector.Scalar.{count, has_staging, rollback_staging}
use hyper_vector.Engine.State.{Collection, Host, meta_bump, checksum_of, size_of}
use hyper_vector.Engine.Import.{is_pending, dim_or, sweep}

abbrev is_some : {A : Type 0} → Option A → Bool
is_some none = false
is_some (some a) = true

-- expected_total is None or count == int(expected_total)
abbrev total_fits : Option ImportTxn → ℕ → Bool
total_fits none n = true
total_fits (some t) n = n == t.total

abbrev new_version : Option ImportTxn → CollectionMeta → ℕ
new_version none m = m.data_version + 1
new_version (some t) m = t.new_data_version

abbrev txn_dim : Option ImportTxn → CollectionMeta → Option ℕ
txn_dim none m = m.dim
txn_dim (some t) m = dim_or t.dim m.dim

abbrev txn_total : Option ImportTxn → CollectionMeta → ℕ
txn_total none m = m.total
txn_total (some t) m = t.total

abbrev txn_last_known : Option ImportTxn → CollectionMeta → Option ℕ
txn_last_known none m = m.last_known_total
txn_last_known (some t) m = some t.total

-- txn.get("prev_state") or "ready"
abbrev restored_state : Option ImportTxn → DataState
restored_state none = ready
restored_state (some t) = t.prev_state

module _ {Index : Type 0} (host : Host Index) where
  open host use {codec}

  unfoldable pub switch_done : CollectionMeta → Collection Index → Bool
  unfolding has_staging count
  switch_done m s =
      not (has_staging s.tables) && is_some s.dir.index && total_fits m.import_txn (count s.tables)

  unfoldable pub roll_forward : ℕ → CollectionMeta → Collection Index → Collection Index
  roll_forward now m s = record s {
    meta = some (record m {
      version = m.version + 1;
      dim = txn_dim m.import_txn m;
      total = txn_total m.import_txn m;
      flushed_at = some now;
      data_state = ready;
      last_known_total = txn_last_known m.import_txn m;
      data_version = new_version m.import_txn m;
      index_version = new_version m.import_txn m;
      import_txn = none;
      index_checksum = checksum_of codec s.dir.index;
      index_size_bytes = size_of s.dir.index;
      updated_at = now;
    });
    dir = record s.dir { staging = none; pre_import = none };
  }

  -- The state after a roll back that leaves the given index file.
  abbrev rolled_back :
      ℕ → CollectionMeta → DataState → Option (List ℕ) → Collection Index → Collection Index
  rolled_back now m state file s = record s {
    meta = some (record m { data_state = state; import_txn = none; updated_at = now });
    dir = record s.dir { index = file; staging = none; pre_import = none };
    tables = rollback_staging s.tables;
  }

  unfoldable pub roll_back : ℕ → CollectionMeta → Collection Index → Collection Index
  unfolding rollback_staging
  roll_back now m s = elim s.dir.pre_import [
    | some old ↦ rolled_back now m (restored_state m.import_txn) (some old) s
    | none ↦ elim s.dir.index [
      | some file ↦ rolled_back now m (restored_state m.import_txn) (some file) s
      | none ↦ rolled_back now m invalid none s
    ]
  ]

  unfoldable pub recover : ℕ → Collection Index → Collection Index
  unfolding is_pending switch_done roll_forward roll_back
  recover now s = elim s.meta [
    | none ↦ s
    | some m ↦
        if is_pending m.data_state m.import_txn
        then (if switch_done m s then roll_forward now m s else roll_back now m s)
        else s
  ]

  -- A crash loses what is in memory; the next start recovers.
  unfoldable pub restart : ℕ → Collection Index → Collection Index
  unfolding recover
  restart now s = recover now (record s { loaded = none; cache = none })
