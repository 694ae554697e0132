-- ===== src/Client/Calls.antt =====
-- The calls of `HypervecClient` (pyhypervec/pyhypervec/client.py), with their arguments: those that may be
-- `None` are options. Calls with further keyword arguments are left out.
use hyper_vector.Common.{ℕ, String, Bool, List, Option}
use hyper_vector.Json.{Json, Fields}
use hyper_vector.Bundle.Archive.{BundleFile}

pub record SearchArgs : Type 0 where
  pub queries : Json
  pub limit : ℕ
  pub search_params : Option Fields
  pub output_fields : Option (List String)
  pub filter : Option String

-- An upload has the file's content in place of its path. `schema` and `index_params` are what `to_dict`
-- gives.
pub data Call : Type 0 where
  health list_collections describe_collections : Call
  has_collection describe_collection drop_collection flush load_collection close_collection
        get_version download_index download_collection_bundle :
      String → Call
  create_collection : String → Fields → Option Fields → Call
  insert : String → List Fields → Call
  search : String → SearchArgs → Call
  sync_check : String → ℕ → Option String → Call
  upload_index : String → List ℕ → Option ℕ → Option String → Call
  upload_collection_bundle : String → BundleFile → Option String → String → Call
  purge_collection_data : String → Bool → Call
