-- ===== src/Client/Rest.antt =====
-- `HypervecClient` over HTTP (pyhypervec/pyhypervec/client.py): the request that each call sends.
use Prim.Native.String
use hyper_vector.Common.{
  ℕ, String, Bool, Option, none, some, List, [], ◌∷◌, length, str_eq, if◌then◌else◌,
}
use hyper_vector.Json.{bool, int, str, arr, obj, Items, nil, cons, Fields, end, field, put}
use hyper_vector.Bundle.Archive.{BundleFile}
use hyper_vector.Http.Router.{no_body, json_body, index_body, bundle_body, Request}
use hyper_vector.Client.Calls.{
  Call, SearchArgs, health, list_collections, describe_collections, has_collection,
  describe_collection, drop_collection, flush, load_collection, close_collection, get_version,
  download_index, download_collection_bundle, create_collection, insert, search, sync_check,
  upload_index, upload_collection_bundle, purge_collection_data,
}

-- f"/collections/{collection_name}/<action>"
unfoldable pub path_of : String → String → String
path_of name action = String.◌++◌ "/collections/" (String.◌++◌ name (String.◌++◌ "/" action))

-- The value of a text that may be `None` goes under its key only if it is not empty.
abbrev pub put_truthy : Fields → String → Option String → Fields
put_truthy d key none = d
put_truthy d key (some s) = if str_eq s "" then d else put d key (str s)

abbrev put_version : Fields → Option ℕ → Fields
put_version d none = d
put_version d (some n) = put d "version" (int n)

abbrev pub dicts : List Fields → Items
dicts [] = nil
dicts (d ∷ l) = cons (obj d) (dicts l)

abbrev pub texts : List String → Items
texts [] = nil
texts (s ∷ l) = cons (str s) (texts l)

-- dict(value or {}) and list(value or [])
abbrev pub fields_or : Fields → Option Fields → Fields
fields_or d none = d
fields_or d (some e) = e

abbrev pub texts_or_none : Option (List String) → List String
texts_or_none none = []
texts_or_none (some l) = l

-- `IndexParams().to_dict()`
abbrev pub no_indexes : Fields
no_indexes = field "indexes" (arr nil) end

abbrev get_request : String → Request
get_request path = record {
  method = "GET";
  path = path;
  query = end;
  content_length = none;
  body = no_body;
}

abbrev post_request : String → Fields → Request
post_request path body = record {
  method = "POST";
  path = path;
  query = end;
  content_length = none;
  body = json_body body;
}

unfoldable pub search_body : SearchArgs → Fields
unfolding put
search_body q =
    put_truthy
      (field "data" q.queries (
        field "limit" (int q.limit) (
          field "search_params" (obj (fields_or end q.search_params))
            (field "output_fields" (arr (texts (texts_or_none q.output_fields))) end))))
      "filter" q.filter

unfoldable pub upload_index_query : Option ℕ → Option String → Fields
unfolding put
upload_index_query version checksum = put_truthy (put_version end version) "checksum" checksum

unfoldable pub create_request : String → Fields → Option Fields → Request
unfolding path_of
create_request name schema index_params = post_request (path_of name "create") (
    field "schema" (obj schema)
      (field "index_params" (obj (fields_or no_indexes index_params)) end))

unfoldable pub insert_request : String → List Fields → Request
unfolding path_of
insert_request name batch =
    post_request (path_of name "insert") (field "data" (arr (dicts batch)) end)

unfoldable pub sync_check_request : String → ℕ → Option String → Request
unfolding path_of put
sync_check_request name version checksum =
    post_request (path_of name "sync-check")
      (put_truthy (field "client_version" (int version) end) "client_checksum" checksum)

unfoldable pub upload_index_request : String → List ℕ → Option ℕ → Option String → Request
unfolding path_of upload_index_query
upload_index_request name bytes version checksum = record {
  method = "PUT";
  path = path_of name "index";
  query = upload_index_query version checksum;
  content_length = some (length bytes);
  body = index_body bytes;
}

-- `file_size` is the length of the bundle file, which urllib sends as `content-length`.
unfoldable pub upload_bundle_request : ℕ → String → BundleFile → Option String → String → Request
unfolding path_of put
upload_bundle_request file_size name file checksum mode = record {
  method = "PUT";
  path = path_of name "bundle";
  query = put_truthy (field "mode" (str mode) end) "checksum" checksum;
  content_length = some file_size;
  body = bundle_body file;
}

unfoldable pub purge_request : String → Bool → Request
unfolding path_of
purge_request name require_exported =
    post_request (path_of name "purge-data") (field "require_exported" (bool require_exported) end)

-- What a call hands to `_request` or `_request_bytes`: `path` is the path as it is written there, and `query`
-- the parameters that an upload writes behind it. Client/Target has what urljoin makes of the path.
unfoldable pub request_of : ℕ → Call → Request
unfolding path_of search_body create_request insert_request sync_check_request upload_index_request
    upload_bundle_request purge_request
request_of file_size health = get_request "/health"
request_of file_size list_collections = get_request "/collections"
request_of file_size describe_collections = get_request "/collections/describe"
request_of file_size (has_collection name) = get_request (path_of name "exists")
request_of file_size (describe_collection name) = get_request (path_of name "describe")
request_of file_size (create_collection name schema index_params) =
    create_request name schema index_params
request_of file_size (drop_collection name) = record {
  method = "DELETE";
  path = String.◌++◌ "/collections/" name;
  query = end;
  content_length = none;
  body = no_body;
}
request_of file_size (insert name batch) = insert_request name batch
request_of file_size (flush name) = post_request (path_of name "flush") end
request_of file_size (load_collection name) = post_request (path_of name "load") end
request_of file_size (close_collection name) = post_request (path_of name "close") end
request_of file_size (get_version name) = get_request (path_of name "version")
request_of file_size (sync_check name version checksum) = sync_check_request name version checksum
request_of file_size (download_index name) = get_request (path_of name "index")
request_of file_size (upload_index name bytes version checksum) =
    upload_index_request name bytes version checksum
request_of file_size (search name q) = post_request (path_of name "search") (search_body q)
request_of file_size (download_collection_bundle name) = get_request (path_of name "bundle")
request_of file_size (upload_collection_bundle name file checksum mode) =
    upload_bundle_request file_size name file checksum mode
request_of file_size (purge_collection_data name require_exported) =
    purge_request name require_exported
