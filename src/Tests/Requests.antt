-- ===== src/Tests/Requests.antt =====
-- Requests to a server: one with no collections, and the sample's.
use hyper_vector.Common.{false, ◌≡◌, ◌↔◌, refl, true, none, [], ◌∷◌}
use mathlib.Core.List.{Mem}
use hyper_vector.Common.Dict
use hyper_vector.Names.Tables
use hyper_vector.Names.{validate_collection_name}
use hyper_vector.Scalar.{count}
use hyper_vector.Engine.Search.{Numbers}
use hyper_vector.Engine.Server.{Server, view, list_collections}
use hyper_vector.Engine.Answer.{Answer, download, existing, purged_rows}
use hyper_vector.Http.{sent}
use hyper_vector.Http.Laws.{Same, handle-Same, purge_data-download_bundle}
use hyper_vector.Http.Router
use hyper_vector.Http.Router.{answer, handle, route}
use hyper_vector.Http.Routes
use hyper_vector.Client.Calls
use hyper_vector.Client.Rest.{request_of}
use hyper_vector.Client.Reach.{Reach, start, http, listed-has_collection}
use hyper_vector.Tests.Samples.{Index, host, schema}
use hyper_vector.Tests.Servers.{server}
use hyper_vector.Tests.Entries.{exported}

abbrev empty_server : Server Index
empty_server = record { metas = []; db = []; dirs = []; indexes = []; scalar_cache = [] }

abbrev no_numbers : Numbers
no_numbers = record { as_matrix = λ j. none; is_number = λ s. false }

-- What the request of the client's `create_collection` leaves.
abbrev created : Server Index
created =
    (answer host (λ n. n) 10
      (route no_numbers (request_of 0 (Calls.create_collection "docs" schema none))) empty_server).1

created_listed : list_collections created ≡ "docs" ∷ []
unfolding list_collections answer route request_of Routes.create_collection Dict.put? Dict.get
    Dict.put
created_listed = refl

created-Reach : Reach host (λ n. n) no_numbers created
created-Reach =
    http 10 (request_of 0 (Calls.create_collection "docs" schema none)) (start empty_server refl)

listed-has_collection_example :
    Mem "docs" (list_collections created)
    ↔ ((Routes.has_collection "docs" created).0 ≡ sent (existing true))
unfolding validate_collection_name
listed-has_collection_example =
    listed-has_collection host (λ n. n) no_numbers "docs" created-Reach refl

handle-Same_example : Same server (handle host (λ n. n) 10 (Router.download_index "docs") server).1
handle-Same_example = handle-Same host (λ n. n) 10 (Router.download_index "docs") server tt

abbrev the_file : Answer
the_file = download (Routes.bundle_file host "docs" exported)

download_docs : (Routes.download_bundle host "docs" 10 server).0 ≡ sent the_file
unfolding Routes.download_bundle Dict.get Dict.codes_eq Tables.table Tables.identifier
download_docs = refl

purge_data-download_bundle_example :
    (Routes.purge_data "docs" 11 none (Routes.download_bundle host "docs" 10 server).1).0
    ≡ sent (purged_rows (count (view "docs" server).tables))
purge_data-download_bundle_example =
    purge_data-download_bundle host "docs" 10 11 server the_file download_docs
