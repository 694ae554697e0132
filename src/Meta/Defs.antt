-- ===== src/Meta/Defs.antt =====
-- `CollectionMeta` of src/python/hypervec_meta_store.py. A time is a number of clock ticks.
use hyper_vector.Common.{ℕ, String, Option}
use hyper_vector.Json.{Fields}

-- The values of `data_state`.
pub data DataState : Type 0 where
  ready purged importing invalid : DataState

-- `import_txn`, as `import_collection_bundle` writes it.
pub record ImportTxn : Type 0 where
  pub stage : String
  pub new_data_version : ℕ
  pub prev_state : DataState
  pub total : ℕ
  pub dim : Option ℕ
  pub source_checksum : Option String

pub record CollectionMeta : Type 0 where
  pub collection_name : String
  pub version : ℕ
  pub schema : Fields
  pub index_params : Fields
  pub id_field : String
  pub vector_field : String
  pub text_field : String
  pub dim : Option ℕ
  pub total : ℕ
  pub index_path : String
  pub index_checksum : Option String
  pub index_size_bytes : Option ℕ
  pub created_at : ℕ
  pub updated_at : ℕ
  pub flushed_at : Option ℕ
  pub data_state : DataState
  pub last_known_total : Option ℕ
  pub last_exported_at : Option ℕ
  pub last_purged_at : Option ℕ
  pub bundle_format : Option String
  pub data_version : ℕ
  pub index_version : ℕ
  pub exported_data_version : Option ℕ
  pub exported_bundle_checksum : Option String
  pub exported_index_version : Option ℕ
  pub exported_index_checksum : Option String
  pub import_txn : Option ImportTxn
