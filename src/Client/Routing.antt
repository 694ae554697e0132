-- ===== src/Client/Routing.antt =====
-- Where the requests of the client (pyhypervec/pyhypervec/client.py) arrive in the HTTP server.
use Prim.Native.String.{String}
use hyper_vector.Common.{
  ℕ, ◌≡◌, refl, Bool, true, ◌++◌, Option, none, some, List, [], ◌∷◌, str_eq, arith, eq_iff,
  Bool-cases, inl, inr,
}
use hyper_vector.Json.{Json, Fields, end}
use hyper_vector.Names.{codes}
use hyper_vector.Engine.Search.{Numbers}
use hyper_vector.Grpc.{or_empty}
use hyper_vector.Http.Routes.{if_truthy}
use hyper_vector.Http.Router
use hyper_vector.Http.Router.{
  Route, Routed, to, route, route_segments, read_items, read_list, read_fields, read_text,
  read_search, json_body,
}
use hyper_vector.Http.Router.{is_rows}
use hyper_vector.Bundle.Lines.{Text}
use hyper_vector.Common.Result.{ok}
use hyper_vector.Client.Url.Plain.{Plain}
use hyper_vector.Client.Target.{sent_path}
use hyper_vector.Client.Sent.{IsRoutable, Segment-HasNoSlash, sent_path-request_of}
use hyper_vector.Client.Calls.{
  Call, health, list_collections, describe_collections, has_collection, describe_collection,
  drop_collection, flush, load_collection, close_collection, get_version, download_index,
  download_collection_bundle, create_collection, insert, search, sync_check, upload_index,
  upload_collection_bundle, purge_collection_data,
}
use hyper_vector.Client.Rest.{
  request_of, dicts, texts, search_body, fields_or, texts_or_none, no_indexes,
}
use hyper_vector.Client.Paths.{split-prefix, split-path_of, split-one}

-- The route that a call is meant for, with the parameters that it is meant to get.
unfoldable pub route_of : Numbers → ℕ → Call → Route
route_of numbers size health = Router.health
route_of numbers size list_collections = Router.list_collections
route_of numbers size describe_collections = Router.describe_collections
route_of numbers size (has_collection name) = Router.has_collection name
route_of numbers size (describe_collection name) = Router.describe_collection name
route_of numbers size (drop_collection name) = Router.drop_collection name
route_of numbers size (flush name) = Router.flush name
route_of numbers size (load_collection name) = Router.load_collection name
route_of numbers size (close_collection name) = Router.close_collection name
route_of numbers size (get_version name) = Router.get_version name
route_of numbers size (download_index name) = Router.download_index name
route_of numbers size (download_collection_bundle name) = Router.download_bundle name
route_of numbers size (create_collection name schema index_params) =
    Router.create_collection name schema (some (fields_or no_indexes index_params))
route_of numbers size (insert name batch) = Router.insert name batch
route_of numbers size (search name q) = Router.search name (record {
  matrix = numbers.as_matrix q.queries;
  limit = q.limit;
  search_params = fields_or end q.search_params;
  output_fields = texts_or_none q.output_fields;
  filter = codes (or_empty q.filter);
})
route_of numbers size (sync_check name version checksum) =
    Router.sync_check name version (if_truthy checksum)
route_of numbers size (upload_index name bytes version checksum) =
    Router.upload_index name bytes version (if_truthy checksum)
route_of numbers size (upload_collection_bundle name file checksum mode) =
    Router.upload_bundle name (some size) file (if_truthy checksum) mode
route_of numbers size (purge_collection_data name require_exported) =
    Router.purge_data name (some require_exported)

read-dicts : (l : List Fields) → read_items read_fields (dicts l) ≡ some l
read-dicts [] = refl
read-dicts (d ∷ l) = rw (read-dicts l) refl

read-texts : (l : List String) → read_items read_text (texts l) ≡ some l
read-texts [] = refl
read-texts (s ∷ l) = rw (read-texts l) refl

-- A filter that is empty is not sent, and read as the empty one.
read-search :
    (numbers : Numbers) (name : String) (queries : Json) (limit : ℕ) (params : Option Fields)
    (outputs : Option (List String)) (filter : Option String)
    → is_rows numbers.is_number queries ≡ true
    → read_search numbers name (
        json_body (
          search_body (record {
            queries = queries;
            limit = limit;
            search_params = params;
            output_fields = outputs;
            filter = filter;
          })))
      ≡ some (
          Router.search name (record {
            matrix = numbers.as_matrix queries;
            limit = limit;
            search_params = fields_or end params;
            output_fields = texts_or_none outputs;
            filter = codes (or_empty filter);
          }))
unfolding read_search search_body
read-search numbers name queries limit params outputs none h =
    rw (h, read-texts (texts_or_none outputs)) refl
read-search numbers name queries limit params outputs (some s) h = elim (Bool-cases (str_eq s "")) [
  | inl e ↦ rw (e, h, (eq_iff s "").0 e, read-texts (texts_or_none outputs)) refl
  | inr e ↦ rw (e, h, read-texts (texts_or_none outputs)) refl
]

module _ (numbers : Numbers) (size : ℕ) where
  arrives :
      (call : Call)
      → IsRoutable numbers call
      → route numbers (request_of size call) ≡ to (route_of numbers size call)
  unfolding route request_of route_of
  arrives health h = refl
  arrives list_collections h = refl
  arrives describe_collections h = refl
  arrives (has_collection name) h =
      rw (split-path_of name "exists" (Segment-HasNoSlash name h.0), h.1) refl
  arrives (describe_collection name) h =
      rw (split-path_of name "describe" (Segment-HasNoSlash name h.0), h.1) refl
  arrives (drop_collection name) h =
      rw (split-prefix name, split-one name (Segment-HasNoSlash name h.0), h.1) refl
  arrives (flush name) h = rw (split-path_of name "flush" (Segment-HasNoSlash name h.0), h.1) refl
  arrives (load_collection name) h =
      rw (split-path_of name "load" (Segment-HasNoSlash name h.0), h.1) refl
  arrives (close_collection name) h =
      rw (split-path_of name "close" (Segment-HasNoSlash name h.0), h.1) refl
  arrives (get_version name) h =
      rw (split-path_of name "version" (Segment-HasNoSlash name h.0), h.1) refl
  arrives (download_index name) h =
      rw (split-path_of name "index" (Segment-HasNoSlash name h.0), h.1) refl
  arrives (download_collection_bundle name) h =
      rw (split-path_of name "bundle" (Segment-HasNoSlash name h.0), h.1) refl
  arrives (create_collection name schema index_params) h =
      rw (split-path_of name "create" (Segment-HasNoSlash name h.0), h.1) refl
  arrives (insert name batch) h =
      rw (split-path_of name "insert" (Segment-HasNoSlash name h.0), h.1, read-dicts batch) refl
  arrives (search name q) h =
      rw
        (
          split-path_of name "search" (Segment-HasNoSlash name h.0.0),
          h.0.1,
          read-search numbers name q.queries q.limit q.search_params q.output_fields q.filter h.1,
        )
        refl
  arrives (sync_check name version none) h =
      rw (split-path_of name "sync-check" (Segment-HasNoSlash name h.0), h.1) refl
  arrives (sync_check name version (some checksum)) h =
      rw (split-path_of name "sync-check" (Segment-HasNoSlash name h.0), h.1) (ground arith)
  arrives (upload_index name bytes none none) h =
      rw (split-path_of name "index" (Segment-HasNoSlash name h.0), h.1) refl
  arrives (upload_index name bytes none (some checksum)) h =
      rw (split-path_of name "index" (Segment-HasNoSlash name h.0), h.1) (ground arith)
  arrives (upload_index name bytes (some version) none) h =
      rw (split-path_of name "index" (Segment-HasNoSlash name h.0), h.1) refl
  arrives (upload_index name bytes (some version) (some checksum)) h =
      rw (split-path_of name "index" (Segment-HasNoSlash name h.0), h.1) (ground arith)
  arrives (upload_collection_bundle name file none mode) h =
      rw (split-path_of name "bundle" (Segment-HasNoSlash name h.0), h.1) refl
  arrives (upload_collection_bundle name file (some checksum) mode) h =
      rw (split-path_of name "bundle" (Segment-HasNoSlash name h.0), h.1) (ground arith)
  arrives (purge_collection_data name require_exported) h =
      rw (split-path_of name "purge-data" (Segment-HasNoSlash name h.0), h.1) refl

  -- Every request that the client builds is sent to the path that it was built with, with no query, and arrives
  -- at the route that the call is meant for, with the call's arguments. The conditions: the collection's name
  -- is not empty and made of letters, digits, dashes and underscores; the queries of a search are lists of
  -- lists of values that pydantic reads as floats; the client was given an `http` base URL whose authority is
  -- made of small letters, digits, dashes, dots, underscores and colons, and `urlsplit` accepts that authority
  -- and the empty one. The parameters of an upload, which the client writes behind its path, are taken as the
  -- server decodes them.
  pub route-request_of :
      (accepts : Text → Bool) (s : Text) (call : Call)
      → Plain s
      → accepts s ≡ true
      → accepts [] ≡ true
      → IsRoutable numbers call
      → (sent_path accepts (codes "http://" ++ s ++ codes "/") (codes (request_of size call).path)
          ≡ ok (codes (request_of size call).path, []))
        × (route numbers (request_of size call) ≡ to (route_of numbers size call))
  route-request_of accepts s call plain good none_good h =
      (sent_path-request_of accepts s plain good none_good numbers size call h, arrives call h)
