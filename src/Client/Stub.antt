-- ===== src/Client/Stub.antt =====
-- `GrpcTransport` (pyhypervec/pyhypervec/_grpc_transport.py): the rpc that each call makes, with the fields
-- of its message, and the answer as the client returns it.
use hyper_vector.Common.{ℕ, String, Option, some}
use hyper_vector.Json.{Fields, end}
use hyper_vector.Names.{codes}
use hyper_vector.Engine.Search.{Numbers}
use hyper_vector.Engine.State.{Host}
use hyper_vector.Engine.Server.{Server}
use hyper_vector.Engine.Answer.{Answer}
use hyper_vector.Grpc.{Rpc, holds, or_empty}
use hyper_vector.Grpc.Servicer
use hyper_vector.Client.Calls.{
  Call, SearchArgs, health, list_collections, describe_collections, has_collection,
  describe_collection, drop_collection, flush, load_collection, close_collection, get_version,
  download_index, download_collection_bundle, create_collection, insert, search, sync_check,
  upload_index, upload_collection_bundle, purge_collection_data,
}
use hyper_vector.Client.Rest.{fields_or, texts_or_none, no_indexes}

module _ {Index : Type 0} (host : Host Index) (index_path : String → String) (numbers : Numbers)
    (now : ℕ) where
  -- A value that `_dump` writes is read back by `json.loads`.
  unfoldable pub create_rpc : String → Fields → Option Fields → Rpc (Server Index) Answer
  create_rpc name schema index_params =
      Servicer.create_collection host name now (index_path name) (holds schema)
        (holds (fields_or no_indexes index_params))

  unfoldable pub search_rpc : String → SearchArgs → Rpc (Server Index) Answer
  search_rpc name q =
      Servicer.search host name (holds (numbers.as_matrix q.queries)) q.limit
        (holds (fields_or end q.search_params)) (texts_or_none q.output_fields)
        (codes (or_empty q.filter))

  unfoldable pub rpc_of : Call → Rpc (Server Index) Answer
  unfolding create_rpc search_rpc
  rpc_of health = Servicer.health
  rpc_of list_collections = Servicer.list_collections
  rpc_of describe_collections = Servicer.describe_collections
  rpc_of (has_collection name) = Servicer.has_collection name
  rpc_of (describe_collection name) = Servicer.describe_collection name
  rpc_of (create_collection name schema index_params) = create_rpc name schema index_params
  rpc_of (drop_collection name) = Servicer.drop_collection name
  rpc_of (insert name batch) = Servicer.insert host name now (holds batch)
  rpc_of (flush name) = Servicer.flush host name now
  rpc_of (load_collection name) = Servicer.load_collection host name
  rpc_of (close_collection name) = Servicer.close_collection host name
  rpc_of (search name q) = search_rpc name q
  rpc_of (get_version name) = Servicer.get_version name
  rpc_of (sync_check name version checksum) =
      Servicer.sync_check host name version (or_empty checksum)
  rpc_of (download_index name) = Servicer.download_index host name
  rpc_of (upload_index name bytes version checksum) =
      Servicer.upload_index host name now bytes version (or_empty checksum)
  rpc_of (download_collection_bundle name) = Servicer.download_collection_bundle host name now
  rpc_of (upload_collection_bundle name file checksum mode) =
      Servicer.upload_collection_bundle host name now file (or_empty checksum) mode
  rpc_of (purge_collection_data name require_exported) =
      Servicer.purge_collection_data name now (some require_exported)
