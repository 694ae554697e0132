-- ===== src/Grpc/Servicer.antt =====
-- `HyperVecServicer` of src/python/hypervec_grpc_server.py: a method for each rpc, with the fields of its
-- request message as arguments.
use hyper_vector.Common.{
  ℕ, String, Bool, true, Option, none, some, List, ◌==◌, str_eq, length, if◌then◌else◌,
}
use hyper_vector.Common.Result.{ok, err, value_error}
use hyper_vector.Common.Exec.{pure, lift, refuse, ◌>>=◌, ◌>>◌}
use hyper_vector.Json.{arr, nil, Fields, end, field, is_empty}
use hyper_vector.Meta.{CollectionMeta}
use hyper_vector.Bundle.Archive.{BundleFile, bundle_format}
use hyper_vector.Bundle.Lines.{Text}
use hyper_vector.Engine.State.{Host}
use hyper_vector.Engine.Server
use hyper_vector.Engine.Server.{Server, call, unlink_bundle}
use hyper_vector.Engine.Lifecycle
use hyper_vector.Engine.Lifecycle.{MetaResponse}
use hyper_vector.Engine.Insert
use hyper_vector.Engine.Flush
use hyper_vector.Engine.Search
use hyper_vector.Engine.Search.{Matrix}
use hyper_vector.Engine.Upload
use hyper_vector.Engine.Export.{Exported, export_collection_bundle}
use hyper_vector.Engine.Import.{import_collection_bundle}
use hyper_vector.Engine.Purge
use hyper_vector.Engine.Answer.{
  Answer, healthy, names, descriptions, existing, described, dropped, inserted, flushed, loaded,
  closed, found, versioned, checked, download, purged_rows, Download,
}
use hyper_vector.Grpc.{
  replied, Rpc, reply, attempt, JsonText, loads, loads_or, text_or_none, or_empty,
}

-- index_params or {"indexes": []}
abbrev pub params_or_default : Fields → Fields
params_or_default d = if is_empty d then field "indexes" (arr nil) end else d

-- `request.require_exported if request.HasField("require_exported") else True`
abbrev pub flag_or_true : Option Bool → Bool
flag_or_true none = true
flag_or_true (some b) = b

-- request.mode or "replace"
abbrev pub mode_or_replace : String → String
mode_or_replace mode = if str_eq mode "" then "replace" else mode

-- int(value or default)
abbrev pub size_or : Option ℕ → ℕ → ℕ
size_or none n = n
size_or (some size) n = if size == 0 then n else size

module _ {Index : Type 0} where
  unfoldable pub health : Rpc (Server Index) Answer
  health s = (replied healthy, s)

  unfoldable pub list_collections : Rpc (Server Index) Answer
  unfolding Server.list_collections
  list_collections s = (replied (names (Server.list_collections s)), s)

  unfoldable pub describe_collections : Rpc (Server Index) Answer
  unfolding Server.describe_collections attempt
  describe_collections =
      attempt (λ (d : List MetaResponse). descriptions d)
        (λ s. (ok (Server.describe_collections s), s))

  module _ (name : String) where
    unfoldable pub has_collection : Rpc (Server Index) Answer
    unfolding Lifecycle.has_collection attempt call
    has_collection = attempt existing (call name Lifecycle.has_collection)

    unfoldable pub describe_collection : Rpc (Server Index) Answer
    unfolding Lifecycle.describe_collection attempt call
    describe_collection = attempt described (call name Lifecycle.describe_collection)

    unfoldable pub drop_collection : Rpc (Server Index) Answer
    unfolding Lifecycle.drop_collection attempt call
    drop_collection = attempt dropped (call name Lifecycle.drop_collection)

    unfoldable pub get_version : Rpc (Server Index) Answer
    unfolding Lifecycle.get_version attempt call
    get_version = attempt versioned (call name Lifecycle.get_version)

    unfoldable pub purge_collection_data : ℕ → Option Bool → Rpc (Server Index) Answer
    unfolding Purge.purge_collection_data attempt call
    purge_collection_data now require_exported =
        attempt purged_rows
          (call name (Purge.purge_collection_data now (flag_or_true require_exported)))

-- The fields of the message that a download of the index answers.
unfoldable pub index_message : List ℕ → CollectionMeta → Download
index_message content meta = record {
  content = content;
  version = some meta.version;
  checksum = some (or_empty meta.index_checksum);
  size = some (size_or meta.index_size_bytes (length content));
  format = none;
}

module _ {Index : Type 0} (host : Host Index) (name : String) where
  -- `extra_json` is not read.
  unfoldable pub create_collection :
      ℕ → String → JsonText Fields → JsonText Fields → Rpc (Server Index) Answer
  unfolding Lifecycle.create_collection attempt call
  create_collection now index_path schema_json index_params_json = attempt described (do
    schema ← lift (loads schema_json)
    index_params ← lift (loads_or end index_params_json)
    call name (
        Lifecycle.create_collection host.codec.repr now name index_path schema
          (params_or_default index_params)))

  unfoldable pub insert : ℕ → JsonText (List Fields) → Rpc (Server Index) Answer
  unfolding Insert.insert attempt call
  insert now data_json =
      attempt inserted (do batch ← lift (loads data_json); call name (Insert.insert host now batch))

  unfoldable pub flush : ℕ → Rpc (Server Index) Answer
  unfolding Flush.flush attempt call
  flush now = attempt flushed (call name (Flush.flush host now))

  unfoldable pub load_collection : Rpc (Server Index) Answer
  unfolding Flush.load_collection attempt call
  load_collection = attempt (λ _. loaded) (call name (Flush.load_collection host))

  unfoldable pub close_collection : Rpc (Server Index) Answer
  unfolding Flush.close_collection attempt call
  close_collection = attempt (λ _. closed) (call name (Flush.close_collection host))

  unfoldable pub search :
      JsonText (Option Matrix)
      → ℕ
      → JsonText Fields
      → List String
      → Text
      → Rpc (Server Index) Answer
  unfolding Search.search attempt call
  search query_json limit search_params_json output_fields filter = attempt found (do
    query ← lift (loads query_json)
    search_params ← lift (loads_or end search_params_json)
    call name (Search.search host query limit search_params output_fields filter))

  unfoldable pub sync_check : ℕ → String → Rpc (Server Index) Answer
  unfolding Upload.sync_check attempt call
  sync_check client_version client_checksum =
      attempt checked
        (call name (Upload.sync_check host client_version (text_or_none client_checksum)))

  unfoldable pub download_index : Rpc (Server Index) Answer
  unfolding Upload.index_path_for_download Lifecycle.get_version attempt call index_message
  download_index = attempt download (do
    content ← call name (Upload.index_path_for_download host)
    version ← call name Lifecycle.get_version
    pure (index_message content version))

  unfoldable pub upload_index : ℕ → List ℕ → Option ℕ → String → Rpc (Server Index) Answer
  unfolding Upload.upload_index attempt call
  upload_index now content version checksum = attempt flushed (do
    refuse (length content == 0) value_error
    call name (Upload.upload_index host now (some content) version (text_or_none checksum)))

  unfoldable pub bundle_message : Exported → Download
  bundle_message x = record {
    content = host.file_bytes x.file;
    version = some x.version;
    checksum = some x.bundle_checksum;
    size = some (length (host.file_bytes x.file));
    format = some bundle_format;
  }

  -- The file is removed in `finally`, where it was written.
  unfoldable pub download_collection_bundle : ℕ → Rpc (Server Index) Answer
  unfolding export_collection_bundle call unlink_bundle bundle_message reply
  download_collection_bundle now s =
      let (r, t) = call name (export_collection_bundle host now name true) s in
      elim r [
        | ok x ↦ (replied (download (bundle_message x)), unlink_bundle name t)
        | err e ↦ (reply download (err e), t)
      ]

  unfoldable pub upload_collection_bundle :
      ℕ → BundleFile → String → String → Rpc (Server Index) Answer
  unfolding import_collection_bundle attempt call
  upload_collection_bundle now body checksum mode = attempt flushed (do
    refuse (length (host.file_bytes body) == 0) value_error
    call name (
        import_collection_bundle host now name (some body) (text_or_none checksum)
          (mode_or_replace mode)))
