-- ===== src/Http/Routes.antt =====
-- The routes of `create_app` in src/python/hypervec_http_server.py, each with its parameters as FastAPI
-- hands them over.
use hyper_vector.Common.{
  ℕ, ◌*◌, String, Bool, true, false, Option, none, some, List, ltb, ◌==◌, str_eq, length,
  if◌then◌else◌,
}
use hyper_vector.Common.Result.{ok, err, value_error}
use hyper_vector.Common.Exec.{pure, refuse, ◌>>=◌, ◌>>◌}
use hyper_vector.Json.{arr, nil, Fields, end, field}
use hyper_vector.Meta.{CollectionMeta}
use hyper_vector.Bundle.Archive.{BundleFile, bundle_format}
use hyper_vector.Bundle.Lines.{Text}
use hyper_vector.Engine.State.{Host}
use hyper_vector.Engine.Server
use hyper_vector.Engine.Server.{Server, call, unlink_bundle}
use hyper_vector.Engine.Lifecycle
use hyper_vector.Engine.Lifecycle.{MetaResponse}
use hyper_vector.Engine.Insert
use hyper_vector.Engine.Flush
use hyper_vector.Engine.Search
use hyper_vector.Engine.Search.{Matrix}
use hyper_vector.Engine.Upload
use hyper_vector.Engine.Export.{Exported, export_collection_bundle}
use hyper_vector.Engine.Import.{import_collection_bundle}
use hyper_vector.Engine.Purge
use hyper_vector.Engine.Answer.{
  Answer, healthy, names, descriptions, existing, described, dropped, inserted, flushed, loaded,
  closed, found, versioned, checked, download, purged_rows, Download,
}
use hyper_vector.Http.{sent, Handler, response, attempt}

abbrev pub max_bundle_upload_bytes : ℕ
max_bundle_upload_bytes = 2 * 1024 * 1024 * 1024

-- `Field(default_factory=lambda: {"indexes": []})`
abbrev pub index_params_or_default : Option Fields → Fields
index_params_or_default none = field "indexes" (arr nil) end
index_params_or_default (some d) = d

-- The body of a search request, its defaults filled in. `matrix` is the array that numpy makes of
-- `data`, `none` where it has not two dimensions.
pub record SearchRequest : Type 0 where
  pub matrix : Option Matrix
  pub limit : ℕ
  pub search_params : Fields
  pub output_fields : List String
  pub filter : Text

-- `request or PurgeDataRequest()`, with the default of `require_exported`
abbrev pub require_exported_or : Option Bool → Bool
require_exported_or none = true
require_exported_or (some b) = b

-- A text or `None`, and whether it counts as true.
abbrev pub if_truthy : Option String → Option String
if_truthy none = none
if_truthy (some s) = if str_eq s "" then none else some s

-- int(content_length) > _MAX_BUNDLE_UPLOAD_BYTES, where the header is there and is a number.
abbrev pub exceeds : Option ℕ → Bool
exceeds none = false
exceeds (some n) = ltb max_bundle_upload_bytes n

module _ {Index : Type 0} where
  unfoldable pub health : Handler (Server Index) Answer
  health s = (sent healthy, s)

  unfoldable pub list_collections : Handler (Server Index) Answer
  unfolding Server.list_collections
  list_collections s = (sent (names (Server.list_collections s)), s)

  unfoldable pub describe_collections : Handler (Server Index) Answer
  unfolding Server.describe_collections attempt
  describe_collections =
      attempt (λ (d : List MetaResponse). descriptions d)
        (λ s. (ok (Server.describe_collections s), s))

  module _ (name : String) where
    unfoldable pub has_collection : Handler (Server Index) Answer
    unfolding Lifecycle.has_collection attempt call
    has_collection = attempt existing (call name Lifecycle.has_collection)

    unfoldable pub describe_collection : Handler (Server Index) Answer
    unfolding Lifecycle.describe_collection attempt call
    describe_collection = attempt described (call name Lifecycle.describe_collection)

    unfoldable pub drop_collection : Handler (Server Index) Answer
    unfolding Lifecycle.drop_collection attempt call
    drop_collection = attempt dropped (call name Lifecycle.drop_collection)

    unfoldable pub get_version : Handler (Server Index) Answer
    unfolding Lifecycle.get_version attempt call
    get_version = attempt versioned (call name Lifecycle.get_version)

-- The headers of a download of the index: one whose value is missing is left out.
unfoldable pub index_file : List ℕ → CollectionMeta → Download
index_file content meta = record {
  content = content;
  version = some meta.version;
  checksum = if_truthy meta.index_checksum;
  size = meta.index_size_bytes;
  format = none;
}

module _ {Index : Type 0} (host : Host Index) (name : String) where
  unfoldable pub create_collection :
      ℕ → String → Fields → Option Fields → Handler (Server Index) Answer
  unfolding Lifecycle.create_collection attempt call
  create_collection now index_path schema index_params = attempt described (
      call name (
        Lifecycle.create_collection host.codec.repr now name index_path schema
          (index_params_or_default index_params)))

  unfoldable pub insert : ℕ → List Fields → Handler (Server Index) Answer
  unfolding Insert.insert attempt call
  insert now batch = attempt inserted (call name (Insert.insert host now batch))

  unfoldable pub flush : ℕ → Handler (Server Index) Answer
  unfolding Flush.flush attempt call
  flush now = attempt flushed (call name (Flush.flush host now))

  unfoldable pub load_collection : Handler (Server Index) Answer
  unfolding Flush.load_collection attempt call
  load_collection = attempt (λ _. loaded) (call name (Flush.load_collection host))

  unfoldable pub close_collection : Handler (Server Index) Answer
  unfolding Flush.close_collection attempt call
  close_collection = attempt (λ _. closed) (call name (Flush.close_collection host))

  unfoldable pub search : SearchRequest → Handler (Server Index) Answer
  unfolding Search.search attempt call
  search q =
      attempt found
        (call name (Search.search host q.matrix q.limit q.search_params q.output_fields q.filter))

  unfoldable pub sync_check : ℕ → Option String → Handler (Server Index) Answer
  unfolding Upload.sync_check attempt call
  sync_check client_version client_checksum =
      attempt checked (call name (Upload.sync_check host client_version client_checksum))

  -- Two calls of the engine; here nothing comes in between.
  unfoldable pub download_index : Handler (Server Index) Answer
  unfolding Upload.index_path_for_download Lifecycle.get_version attempt call index_file
  download_index = attempt download (do
    content ← call name (Upload.index_path_for_download host)
    version ← call name Lifecycle.get_version
    pure (index_file content version))

  unfoldable pub upload_index :
      ℕ → List ℕ → Option ℕ → Option String → Handler (Server Index) Answer
  unfolding Upload.upload_index attempt call
  upload_index now body version checksum = attempt flushed (do
    refuse (length body == 0) value_error
    call name (Upload.upload_index host now (some body) version checksum))

  -- The content of the bundle and its headers.
  unfoldable pub bundle_file : Exported → Download
  bundle_file x = record {
    content = host.file_bytes x.file;
    version = some x.version;
    checksum = some x.bundle_checksum;
    size = some (length (host.file_bytes x.file));
    format = some bundle_format;
  }

  -- The file is read and removed outside the `try`.
  unfoldable pub download_bundle : ℕ → Handler (Server Index) Answer
  unfolding export_collection_bundle call unlink_bundle bundle_file response
  download_bundle now s =
      let (r, t) = call name (export_collection_bundle host now name true) s in
      elim r [
        | ok x ↦ (sent (download (bundle_file x)), unlink_bundle name t)
        | err e ↦ (response download (err e), t)
      ]

  -- `declared` is the header `content-length` where it is a number; `body` is a file whose bytes are
  -- those of the request.
  unfoldable pub upload_bundle :
      ℕ → Option ℕ → BundleFile → Option String → String → Handler (Server Index) Answer
  unfolding import_collection_bundle attempt call
  upload_bundle now declared body checksum mode = attempt flushed (do
    refuse (exceeds declared) value_error
    refuse (length (host.file_bytes body) == 0) value_error
    refuse (exceeds (some (length (host.file_bytes body)))) value_error
    call name (import_collection_bundle host now name (some body) checksum mode))

module _ {Index : Type 0} where
  unfoldable pub purge_data : String → ℕ → Option Bool → Handler (Server Index) Answer
  unfolding Purge.purge_collection_data attempt call
  purge_data name now require_exported =
      attempt purged_rows
        (call name (Purge.purge_collection_data now (require_exported_or require_exported)))
