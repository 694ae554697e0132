-- ===== src/Http/Router.antt =====
-- How FastAPI finds the route of a request and reads its parameters, from the decorators and the request
-- models of `create_app` in src/python/hypervec_http_server.py.
pub mod Paths
mod Reading
use hyper_vector.Common.{
  ℕ, String, Bool, true, false, not, ◌&&◌, Option, none, some, List, [], ◌∷◌, str_eq, if◌then◌else◌,
}
use hyper_vector.Json.{Json, null, bool, int, str, arr, obj, Items, nil, cons, Fields, end, get}
use hyper_vector.Names.{codes}
use hyper_vector.Bundle.Archive.{BundleFile}
use hyper_vector.Engine.Search.{Matrix, Numbers}
use hyper_vector.Engine.State.{Host}
use hyper_vector.Engine.Server.{Server}
use hyper_vector.Engine.Answer.{Answer}
use hyper_vector.Http.{Response, failed, Handler}
use hyper_vector.Http.Routes
use hyper_vector.Http.Routes.{SearchRequest}
use hyper_vector.Http.Router.Paths.{split_slash}
unfoldable pub use Reading.*

module _ (numbers : Numbers) (r : Request) where
  open r use {method, query, content_length, body}

  -- The routes below a collection's name, by method and last segment.
  unfoldable pub route_named : String → String → Routed
  unfolding read_create read_insert read_search read_sync_check read_purge read_upload_index
      read_upload_bundle
  route_named name action =
      if str_eq name ""
      then unmatched
      else if str_eq method "GET"
      then (if str_eq action "exists"
          then to (has_collection name)
          else if str_eq action "describe"
          then to (describe_collection name)
          else if str_eq action "version"
          then to (get_version name)
          else if str_eq action "index"
          then to (download_index name)
          else if str_eq action "bundle"
          then to (download_bundle name)
          else unmatched)
      else if str_eq method "POST"
      then (if str_eq action "create"
          then routed (read_create name body)
          else if str_eq action "insert"
          then routed (read_insert name body)
          else if str_eq action "flush"
          then to (flush name)
          else if str_eq action "load"
          then to (load_collection name)
          else if str_eq action "close"
          then to (close_collection name)
          else if str_eq action "search"
          then routed (read_search numbers name body)
          else if str_eq action "sync-check"
          then routed (read_sync_check name body)
          else if str_eq action "purge-data"
          then routed (read_purge name body)
          else unmatched)
      else if str_eq method "PUT"
      then (if str_eq action "index"
          then routed (read_upload_index name query body)
          else if str_eq action "bundle"
          then routed (read_upload_bundle name query content_length body)
          else unmatched)
      else unmatched

  -- The first segment of a path that begins with a slash is empty.
  unfoldable pub route_segments : List String → Routed
  unfolding route_named
  route_segments (root ∷ first ∷ []) =
      if str_eq method "GET" && str_eq first "health"
      then to health
      else if str_eq method "GET" && str_eq first "collections"
      then to list_collections
      else unmatched
  route_segments (root ∷ first ∷ second ∷ []) =
      if not (str_eq first "collections")
      then unmatched
      else if str_eq method "GET" && str_eq second "describe"
      then to describe_collections
      else if str_eq method "DELETE" && not (str_eq second "")
      then to (drop_collection second)
      else unmatched
  route_segments (root ∷ first ∷ name ∷ action ∷ []) =
      if str_eq first "collections" then route_named name action else unmatched
  route_segments _ = unmatched

  unfoldable pub route : Routed
  unfolding route_segments split_slash
  route = route_segments (split_slash r.path)

module _ {Index : Type 0} (host : Host Index) (index_path : String → String) (now : ℕ) where
  -- The function under the decorator.
  unfoldable pub handle : Route → Handler (Server Index) Answer
  handle health = Routes.health
  handle list_collections = Routes.list_collections
  handle describe_collections = Routes.describe_collections
  handle (has_collection name) = Routes.has_collection name
  handle (describe_collection name) = Routes.describe_collection name
  handle (drop_collection name) = Routes.drop_collection name
  handle (flush name) = Routes.flush host name now
  handle (load_collection name) = Routes.load_collection host name
  handle (close_collection name) = Routes.close_collection host name
  handle (get_version name) = Routes.get_version name
  handle (download_index name) = Routes.download_index host name
  handle (download_bundle name) = Routes.download_bundle host name now
  handle (create_collection name schema index_params) =
      Routes.create_collection host name now (index_path name) schema index_params
  handle (insert name batch) = Routes.insert host name now batch
  handle (search name q) = Routes.search host name q
  handle (sync_check name version checksum) = Routes.sync_check host name version checksum
  handle (upload_index name bytes version checksum) =
      Routes.upload_index host name now bytes version checksum
  handle (upload_bundle name declared file checksum mode) =
      Routes.upload_bundle host name now declared file checksum mode
  handle (purge_data name require_exported) = Routes.purge_data name now require_exported

  unfoldable pub answer : Routed → Handler (Server Index) Answer
  unfolding handle
  answer (to r) = handle r
  answer unmatched = λ s. (failed 404, s)
  answer invalid = λ s. (failed 422, s)
