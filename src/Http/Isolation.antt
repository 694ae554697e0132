-- ===== src/Http/Isolation.antt =====
-- The collections of one server of src/python/hypervec_http_server.py, whose rows are tables of one SQLite
-- database: what a request about one of them does to another.
use hyper_vector.Common.{ℕ, ◌≡◌, String, Option, none, some, List, [], ◌∷◌}
use hyper_vector.Common.Dict
use hyper_vector.Common.Dict.{string_key}
use hyper_vector.Common.Result.{Result}
use hyper_vector.Common.Exec.{Exec}
use hyper_vector.Engine.State.{Host}
use hyper_vector.Engine.Server.{Server, view}
use hyper_vector.Engine.Server.Frame.{AreSeparate}
use hyper_vector.Engine.Lifecycle
use hyper_vector.Engine.Upload
use hyper_vector.Engine.Answer.{Answer}
use hyper_vector.Http.Router
use hyper_vector.Http.Router.{Route, handle}
use hyper_vector.Http.Routes

-- The collection that a request is about.
abbrev pub subject : Route → Option String
subject Router.health = none
subject Router.list_collections = none
subject Router.describe_collections = none
subject (Router.has_collection name) = some name
subject (Router.describe_collection name) = some name
subject (Router.drop_collection name) = some name
subject (Router.flush name) = some name
subject (Router.load_collection name) = some name
subject (Router.close_collection name) = some name
subject (Router.get_version name) = some name
subject (Router.download_index name) = some name
subject (Router.download_bundle name) = some name
subject (Router.create_collection name schema params) = some name
subject (Router.insert name batch) = some name
subject (Router.search name q) = some name
subject (Router.sync_check name version checksum) = some name
subject (Router.upload_index name bytes version checksum) = some name
subject (Router.upload_bundle name declared file checksum mode) = some name
subject (Router.purge_data name exported) = some name

-- It is about none, or about one that shares no table with `b`.
abbrev pub IsApart : String → Option String → Type 0
IsApart b none = Unit
IsApart b (some name) = AreSeparate name b

module _ {Index : Type 0} (b : String) (s : Server Index) where
  abbrev Untouched : Server Index → Type 0
  Untouched t = view b t ≡ view b s

module _ {Index : Type 0} (host : Host Index) (index_path : String → String) (b : String)
    (s : Server Index) where
  -- The server after requests, each at its time.
  abbrev pub after : List (ℕ × Route) → Server Index → Server Index
  after [] t = t
  after ((now, r) ∷ requests) t = after requests (handle host index_path now r t).1
