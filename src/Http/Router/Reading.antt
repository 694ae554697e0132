-- ===== src/Http/Router/Reading.antt =====
-- Requests, routes, and how the request models of src/python/hypervec_http_server.py read a body.
use hyper_vector.Common.{
  ℕ, String, Bool, true, false, ◌&&◌, Option, none, some, List, [], ◌∷◌, if◌then◌else◌,
}
use hyper_vector.Json.{
  Json, null, bool, int, neg, real, str, arr, obj, Items, nil, cons, Fields, end, get,
}
use hyper_vector.Names.{codes}
use hyper_vector.Bundle.Archive.{BundleFile}
use hyper_vector.Engine.Search.{Numbers}
use hyper_vector.Http.Routes.{SearchRequest}

-- The body: none, a JSON object, the bytes of an index file, or those of a bundle file.
pub data Body : Type 0 where
  no_body : Body
  json_body : Fields → Body
  index_body : List ℕ → Body
  bundle_body : BundleFile → Body

-- The path is decoded. `query` has the parameters of the query string, a number where its text is
-- one, and `content_length` the header.
pub record Request : Type 0 where
  pub method : String
  pub path : String
  pub query : Fields
  pub content_length : Option ℕ
  pub body : Body

-- A route with its parameters.
pub data Route : Type 0 where
  health list_collections describe_collections : Route
  has_collection describe_collection drop_collection flush load_collection close_collection
        get_version download_index download_bundle :
      String → Route
  create_collection : String → Fields → Option Fields → Route
  insert : String → List Fields → Route
  search : String → SearchRequest → Route
  sync_check : String → ℕ → Option String → Route
  upload_index : String → List ℕ → Option ℕ → Option String → Route
  upload_bundle : String → Option ℕ → BundleFile → Option String → String → Route
  purge_data : String → Option Bool → Route

-- `unmatched` is answered by 404 or 405, `invalid` by 422.
pub data Routed : Type 0 where
  to : Route → Routed
  unmatched invalid : Routed

-- Reading parameters: `none` is a validation error.
infixl 5 ◌>>=◌
abbrev ◌>>=◌ : {A B : Type 0} → Option A → (A → Option B) → Option B
none >>= next = none
some a >>= next = next a

abbrev pub read_fields : Json → Option Fields
read_fields (obj d) = some d
read_fields _ = none

abbrev pub read_int : Json → Option ℕ
read_int (int n) = some n
read_int _ = none

abbrev pub read_text : Json → Option String
read_text (str s) = some s
read_text _ = none

abbrev pub read_bool : Json → Option Bool
read_bool (bool b) = some b
read_bool _ = none

-- list[...]
abbrev pub read_items : {A : Type 0} → (Json → Option A) → Items → Option (List A)
read_items read nil = some []
read_items read (cons j js) = do a ← read j; l ← read_items read js; some (a ∷ l)

abbrev pub read_list : {A : Type 0} → (Json → Option A) → Json → Option (List A)
read_list read (arr js) = read_items read js
read_list read _ = none

-- Optional[...]
abbrev pub read_optional : {A : Type 0} → (Json → Option A) → Json → Option (Option A)
read_optional read null = some none
read_optional read j = do a ← read j; some (some a)

abbrev pub required : {A : Type 0} → (Json → Option A) → Option Json → Option A
required read none = none
required read (some j) = read j

abbrev pub default : {A : Type 0} → A → (Json → Option A) → Option Json → Option A
default a read none = some a
default a read (some j) = read j

abbrev pub fields_of_body : Body → Option Fields
fields_of_body (json_body d) = some d
fields_of_body _ = none

abbrev pub routed : Option Route → Routed
routed none = invalid
routed (some r) = to r

-- `CreateCollectionRequest`
unfoldable pub read_create : String → Body → Option Route
unfolding get
read_create name body = do
  d ← fields_of_body body
  schema ← required read_fields (get d "schema")
  index_params ← default none (λ j. read_fields j >>= λ p. some (some p)) (get d "index_params")
  some (create_collection name schema index_params)

-- `InsertRequest`
unfoldable pub read_insert : String → Body → Option Route
unfolding get
read_insert name body = do
  d ← fields_of_body body
  batch ← required (read_list read_fields) (get d "data")
  some (insert name batch)

-- A value that pydantic takes for a float.
unfoldable pub is_float : (String → Bool) → Json → Bool
is_float is_number null = false
is_float is_number (bool b) = true
is_float is_number (int n) = true
is_float is_number (neg n) = true
is_float is_number (real s) = true
is_float is_number (str s) = is_number s
is_float is_number (arr l) = false
is_float is_number (obj d) = false

unfoldable are_floats : (String → Bool) → Items → Bool
unfolding is_float
are_floats is_number nil = true
are_floats is_number (cons j l) = is_float is_number j && are_floats is_number l

unfoldable is_row : (String → Bool) → Json → Bool
unfolding are_floats
is_row is_number (arr l) = are_floats is_number l
is_row is_number _ = false

unfoldable are_rows : (String → Bool) → Items → Bool
unfolding is_row
are_rows is_number nil = true
are_rows is_number (cons j l) = is_row is_number j && are_rows is_number l

-- list[list[float]]
unfoldable pub is_rows : (String → Bool) → Json → Bool
unfolding are_rows
is_rows is_number (arr l) = are_rows is_number l
is_rows is_number _ = false

-- `SearchRequest`
unfoldable pub read_search : Numbers → String → Body → Option Route
unfolding get is_rows
read_search numbers name body = do
  d ← fields_of_body body
  queries ← required (λ j. if is_rows numbers.is_number j then some j else none) (get d "data")
  limit ← required read_int (get d "limit")
  search_params ← default end read_fields (get d "search_params")
  output_fields ← default [] (read_list read_text) (get d "output_fields")
  filter ← default "" read_text (get d "filter")
  some (
      search name (record {
        matrix = numbers.as_matrix queries;
        limit = limit;
        search_params = search_params;
        output_fields = output_fields;
        filter = codes filter;
      }))

-- `SyncCheckRequest`
unfoldable pub read_sync_check : String → Body → Option Route
unfolding get
read_sync_check name body = do
  d ← fields_of_body body
  client_version ← required read_int (get d "client_version")
  client_checksum ← default none (read_optional read_text) (get d "client_checksum")
  some (sync_check name client_version client_checksum)

-- `PurgeDataRequest`, which may be left out.
unfoldable pub read_purge : String → Body → Option Route
unfolding get
read_purge name no_body = some (purge_data name none)
read_purge name (json_body d) = do
  require_exported ← default true read_bool (get d "require_exported")
  some (purge_data name (some require_exported))
read_purge name (index_body bytes) = none
read_purge name (bundle_body file) = none

unfoldable pub read_upload_index : String → Fields → Body → Option Route
unfolding get
read_upload_index name query (index_body bytes) = do
  version ← default none (read_optional read_int) (get query "version")
  checksum ← default none (read_optional read_text) (get query "checksum")
  some (upload_index name bytes version checksum)
read_upload_index name query _ = none

unfoldable pub read_upload_bundle : String → Fields → Option ℕ → Body → Option Route
unfolding get
read_upload_bundle name query content_length (bundle_body file) = do
  checksum ← default none (read_optional read_text) (get query "checksum")
  mode ← default "replace" read_text (get query "mode")
  some (upload_bundle name content_length file checksum mode)
read_upload_bundle name query content_length _ = none
