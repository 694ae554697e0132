-- ===== src/Client/Reach/Keyed.antt =====
-- The entries of a server under requests and rpcs (src/python/hypervec_http_server.py,
-- src/python/hypervec_grpc_server.py).
use hyper_vector.Common.{ℕ, String, true, Option, some, List, ◌==◌, length}
use hyper_vector.Common.Dict.{string_key}
use hyper_vector.Common.Result.{Result, ok, err, value_error}
use hyper_vector.Common.Exec.{Keeps, bind-Keeps, refuse-Keeps, pure, refuse, ◌>>=◌, ◌>>◌}
use hyper_vector.Json.{end}
use hyper_vector.Names.{codes}
use hyper_vector.Engine.Search.{Numbers}
use hyper_vector.Engine.State.{Host}
use hyper_vector.Engine.Server.{Server, call, unlink_bundle}
use hyper_vector.Engine.Server.Keyed.{IsKeyed, call-IsKeyed}
use hyper_vector.Engine.Server.Named.{
  export-KeepsName, import-KeepsName, flush-KeepsName, insert-KeepsName, load-KeepsName,
  search-KeepsName, upload-KeepsName, path-KeepsName, sync_check-KeepsName, purge-KeepsName,
  create-KeepsName, describe-KeepsName, version-KeepsName, drop-KeepsName,
}
use hyper_vector.Engine.Lifecycle
use hyper_vector.Engine.Upload
use hyper_vector.Engine.Export.{Exported}
use hyper_vector.Engine.Answer.{Answer, Download, download}
use hyper_vector.Meta.{CollectionMeta}
use hyper_vector.Http
use hyper_vector.Http.{sent, response}
use hyper_vector.Http.Routes.{index_file, index_params_or_default, exceeds}
use hyper_vector.Grpc
use hyper_vector.Grpc.{replied, reply, text_or_none, or_empty}
use hyper_vector.Grpc.Servicer
use hyper_vector.Grpc.Servicer.{index_message, params_or_default}
use hyper_vector.Http.Routes
use hyper_vector.Http.Router
use hyper_vector.Http.Router.{Request, Route, Routed, route, handle, answer}
use hyper_vector.Client.Calls
use hyper_vector.Client.Calls.{Call}
use hyper_vector.Client.Rest.{fields_or, texts_or_none, no_indexes}
use hyper_vector.Client.Stub.{rpc_of}

module _ {Index : Type 0} (host : Host Index) (name : String) where
  download-IsKeyed :
      (f : List ℕ → CollectionMeta → Download)
      → Keeps
          (λ (s : Server Index). IsKeyed s)
          (do
            content ← call name (Upload.index_path_for_download host)
            version ← call name Lifecycle.get_version
            pure (f content version))
  download-IsKeyed f =
      bind-Keeps IsKeyed (call name (Upload.index_path_for_download host)) _
        (call-IsKeyed name _ (path-KeepsName host name))
        λ content.
          bind-Keeps IsKeyed (call name Lifecycle.get_version) _
            (call-IsKeyed name Lifecycle.get_version (version-KeepsName name)) λ version s h. h

  upload-IsKeyed :
      (now : ℕ) (bytes : List ℕ) (version : Option ℕ) (checksum : Option String)
      → Keeps
          (λ (s : Server Index). IsKeyed s)
          (do
            refuse (length bytes == 0) value_error
            call name (Upload.upload_index host now (some bytes) version checksum))
  upload-IsKeyed now bytes version checksum =
      bind-Keeps IsKeyed (refuse (length bytes == 0) value_error) _ (refuse-Keeps IsKeyed _ _)
        λ u. call-IsKeyed name _ (upload-KeepsName host name now (some bytes) version checksum)

  http_bundle-IsKeyed :
      (r : Result Exported) (t : Server Index)
      → IsKeyed t
      → (let u : Http.Response Answer × Server Index = elim r [
        | ok x ↦ (sent (download (Routes.bundle_file host name x)), unlink_bundle name t)
        | err e ↦ (response download (err e), t)
      ] in
          IsKeyed u.1)
  unfolding unlink_bundle
  http_bundle-IsKeyed (ok x) t h = h
  http_bundle-IsKeyed (err e) t h = h

  grpc_bundle-IsKeyed :
      (r : Result Exported) (t : Server Index)
      → IsKeyed t
      → (let u : Grpc.Reply Answer × Server Index = elim r [
        | ok x ↦ (replied (download (Servicer.bundle_message host name x)), unlink_bundle name t)
        | err e ↦ (reply download (err e), t)
      ] in
          IsKeyed u.1)
  unfolding unlink_bundle
  grpc_bundle-IsKeyed (ok x) t h = h
  grpc_bundle-IsKeyed (err e) t h = h

module _ {Index : Type 0} (host : Host Index) (index_path : String → String) (now : ℕ) where
  handle-IsKeyed :
      (r : Route) (s : Server Index) → IsKeyed s → IsKeyed (handle host index_path now r s).1
  unfolding handle Http.attempt Routes.health Routes.list_collections Routes.describe_collections
      Routes.has_collection Routes.describe_collection Routes.drop_collection
      Routes.close_collection Routes.get_version Routes.create_collection Routes.insert Routes.flush
      Routes.load_collection Routes.search Routes.sync_check Routes.download_index
      Routes.upload_index Routes.download_bundle Routes.upload_bundle Routes.purge_data
  handle-IsKeyed Router.health s h = h
  handle-IsKeyed Router.list_collections s h = h
  handle-IsKeyed Router.describe_collections s h = h
  handle-IsKeyed (Router.has_collection name) s h =
      call-IsKeyed name Lifecycle.has_collection (λ c k. k) s h
  handle-IsKeyed (Router.describe_collection name) s h =
      call-IsKeyed name Lifecycle.describe_collection (describe-KeepsName name) s h
  handle-IsKeyed (Router.drop_collection name) s h =
      call-IsKeyed name Lifecycle.drop_collection (drop-KeepsName name) s h
  handle-IsKeyed (Router.flush name) s h = call-IsKeyed name _ (flush-KeepsName host name now) s h
  handle-IsKeyed (Router.load_collection name) s h =
      call-IsKeyed name _ (load-KeepsName host name) s h
  handle-IsKeyed (Router.close_collection name) s h = call-IsKeyed name _ (λ c k. k) s h
  handle-IsKeyed (Router.get_version name) s h =
      call-IsKeyed name Lifecycle.get_version (version-KeepsName name) s h
  handle-IsKeyed (Router.download_index name) s h = download-IsKeyed host name index_file s h
  handle-IsKeyed (Router.download_bundle name) s h =
      http_bundle-IsKeyed host name _ _
        (call-IsKeyed name _ (export-KeepsName host name now true) s h)
  handle-IsKeyed (Router.create_collection name schema params) s h =
      call-IsKeyed name _
        (create-KeepsName name host.codec.repr now (index_path name) schema
          (index_params_or_default params))
        s h
  handle-IsKeyed (Router.insert name batch) s h =
      call-IsKeyed name _ (insert-KeepsName host name now batch) s h
  handle-IsKeyed (Router.search name q) s h =
      call-IsKeyed name _
        (search-KeepsName host name q.matrix q.limit q.search_params q.output_fields q.filter) s h
  handle-IsKeyed (Router.sync_check name version checksum) s h =
      call-IsKeyed name _ (sync_check-KeepsName host name version checksum) s h
  handle-IsKeyed (Router.upload_index name bytes version checksum) s h =
      upload-IsKeyed host name now bytes version checksum s h
  handle-IsKeyed (Router.upload_bundle name declared file checksum mode) s h =
      bind-Keeps IsKeyed (refuse (exceeds declared) value_error) _ (refuse-Keeps IsKeyed _ _)
        (λ u.
          bind-Keeps IsKeyed (refuse (length (host.file_bytes file) == 0) value_error) _
            (refuse-Keeps IsKeyed _ _)
            (λ v.
              bind-Keeps IsKeyed
                (refuse (exceeds (some (length (host.file_bytes file)))) value_error) _
                (refuse-Keeps IsKeyed _ _)
                (λ w. call-IsKeyed name _ (import-KeepsName host name now _ checksum mode))))
        s h
  handle-IsKeyed (Router.purge_data name exported) s h =
      call-IsKeyed name _ (purge-KeepsName name now _) s h

  pub rpc-IsKeyed :
      (numbers : Numbers) (c : Call) (s : Server Index)
      → IsKeyed s
      → IsKeyed (rpc_of host index_path numbers now c s).1
  unfolding rpc_of Grpc.attempt Servicer.health Servicer.list_collections
      Servicer.describe_collections Servicer.has_collection Servicer.describe_collection
      Servicer.create_collection Servicer.drop_collection Servicer.insert Servicer.flush
      Servicer.load_collection Servicer.close_collection Servicer.search Servicer.get_version
      Servicer.sync_check Servicer.download_index Servicer.upload_index
      Servicer.download_collection_bundle Servicer.upload_collection_bundle
      Servicer.purge_collection_data
  rpc-IsKeyed numbers Calls.health s h = h
  rpc-IsKeyed numbers Calls.list_collections s h = h
  rpc-IsKeyed numbers Calls.describe_collections s h = h
  rpc-IsKeyed numbers (Calls.has_collection name) s h =
      call-IsKeyed name Lifecycle.has_collection (λ c k. k) s h
  rpc-IsKeyed numbers (Calls.describe_collection name) s h =
      call-IsKeyed name Lifecycle.describe_collection (describe-KeepsName name) s h
  rpc-IsKeyed numbers (Calls.create_collection name schema params) s h =
      call-IsKeyed name _
        (create-KeepsName name host.codec.repr now (index_path name) schema
          (params_or_default (fields_or no_indexes params)))
        s h
  rpc-IsKeyed numbers (Calls.drop_collection name) s h =
      call-IsKeyed name Lifecycle.drop_collection (drop-KeepsName name) s h
  rpc-IsKeyed numbers (Calls.insert name batch) s h =
      call-IsKeyed name _ (insert-KeepsName host name now batch) s h
  rpc-IsKeyed numbers (Calls.flush name) s h =
      call-IsKeyed name _ (flush-KeepsName host name now) s h
  rpc-IsKeyed numbers (Calls.load_collection name) s h =
      call-IsKeyed name _ (load-KeepsName host name) s h
  rpc-IsKeyed numbers (Calls.close_collection name) s h = call-IsKeyed name _ (λ c k. k) s h
  rpc-IsKeyed numbers (Calls.search name q) s h =
      call-IsKeyed name _
        (search-KeepsName host name (numbers.as_matrix q.queries) q.limit
          (fields_or end q.search_params) (texts_or_none q.output_fields)
          (codes (or_empty q.filter)))
        s h
  rpc-IsKeyed numbers (Calls.get_version name) s h =
      call-IsKeyed name Lifecycle.get_version (version-KeepsName name) s h
  rpc-IsKeyed numbers (Calls.sync_check name version checksum) s h =
      call-IsKeyed name _ (sync_check-KeepsName host name version _) s h
  rpc-IsKeyed numbers (Calls.download_index name) s h = download-IsKeyed host name index_message s h
  rpc-IsKeyed numbers (Calls.upload_index name bytes version checksum) s h =
      upload-IsKeyed host name now bytes version (text_or_none (or_empty checksum)) s h
  rpc-IsKeyed numbers (Calls.download_collection_bundle name) s h =
      grpc_bundle-IsKeyed host name _ _
        (call-IsKeyed name _ (export-KeepsName host name now true) s h)
  rpc-IsKeyed numbers (Calls.upload_collection_bundle name file checksum mode) s h =
      bind-Keeps IsKeyed (refuse (length (host.file_bytes file) == 0) value_error) _
        (refuse-Keeps IsKeyed _ _) (λ u. call-IsKeyed name _ (import-KeepsName host name now _ _ _))
        s h
  rpc-IsKeyed numbers (Calls.purge_collection_data name exported) s h =
      call-IsKeyed name _ (purge-KeepsName name now _) s h

  pub answer-IsKeyed :
      (r : Routed) (s : Server Index) → IsKeyed s → IsKeyed (answer host index_path now r s).1
  unfolding answer
  answer-IsKeyed (Router.to r) s h = handle-IsKeyed r s h
  answer-IsKeyed Router.unmatched s h = h
  answer-IsKeyed Router.invalid s h = h
