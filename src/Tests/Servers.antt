-- ===== src/Tests/Servers.antt =====
-- A server with one collection, and the theorems on servers and clients at it.
use hyper_vector.Common.{
  ℕ, ◌+◌, ◌-◌, ◌≡◌, refl, true, false, none, some, List, [], ◌∷◌, ◌++◌, map, length, arith,
}
use mathlib.Core.List.{Perm}
use hyper_vector.Common.Dict
use hyper_vector.Json.{arr, int, real, nil, cons}
use hyper_vector.Names.{codes, is_alnum, is_name_char}
use hyper_vector.Names.Tables
use hyper_vector.Bundle.Archive.{not_zip}
use hyper_vector.Engine.Search.{Numbers}
use hyper_vector.Engine.Server.{Server, list_collections, describe_collections}
use hyper_vector.Engine.Server.Order.{IsSorted, list_collections-IsSorted}
use hyper_vector.Http.Router
use hyper_vector.Http.Router.{Route, route, to, is_rows}
use hyper_vector.Common.Result.{ok}
use hyper_vector.Client.Sent.{IsSegment}
use hyper_vector.Client.Target.{sent_path}
use hyper_vector.Client.Url.Plain.{Plain, is_plain}
use hyper_vector.Client.Calls
use hyper_vector.Client.Calls.{Call}
use hyper_vector.Client.Rest.{request_of}
use hyper_vector.Client.Routing.{route_of, route-request_of}
use hyper_vector.Engine.Answer.{Download}
use hyper_vector.Client.Http2.{
  Connection, send_h2c_body, sent, Event, response_received, data_received, stream_ended,
  read_response, body_of,
}
use hyper_vector.Client.Http2.Laws.{Sends, send_h2c_body-Sends, read_response-cut_off}
use hyper_vector.Tests.Samples.{Index, meta, collection, table}

abbrev pub server : Server Index
server = record {
  metas = ("docs", meta) ∷ ("art", record meta { collection_name = "art" }) ∷ [];
  db = (Tables.live_table (codes "docs"), table) ∷ [];
  dirs = ("docs", collection.dir) ∷ [];
  indexes = ("docs", (2, 2)) ∷ [];
  scalar_cache = [];
}

listed : list_collections server ≡ "art" ∷ "docs" ∷ []
unfolding list_collections
listed = refl

list_collections-IsSorted_example :
    IsSorted codes (list_collections server)
    × Perm (list_collections server) (map (λ m. m.collection_name) (Dict.values server.metas))
    × (map (λ d. d.meta.collection_name) (describe_collections server) ≡ list_collections server)
list_collections-IsSorted_example = list_collections-IsSorted server

abbrev requests : List (ℕ × Route)
requests = (3, Router.close_collection "docs") ∷ (4, Router.drop_collection "docs") ∷ []

abbrev numbers : Numbers
numbers = record {
  as_matrix = λ j. some (record { columns = 2; rows = (1 ∷ 2 ∷ []) ∷ [] });
  is_number = λ s. false;
}

abbrev question : Call
question = Calls.search "docs" (record {
  queries = arr (cons (arr (cons (int 1) (cons (real "0.5") nil))) nil);
  limit = 1;
  search_params = none;
  output_fields = some ("source" ∷ []);
  filter = some "";
})

docs-IsSegment : IsSegment "docs"
unfolding is_name_char is_alnum
docs-IsSegment = ((refl, (refl, (refl, (refl, tt)))), refl)

abbrev local : List ℕ
local = codes "localhost:8080"

local-Plain : Plain local
unfolding is_plain
local-Plain = (
  refl,
  (
    refl,
    (
      refl,
      (refl, (refl, (refl, (refl, (refl, (refl, (refl, (refl, (refl, (refl, (refl, tt))))))))))),
    ),
  ),
)

route-request_of_example :
    (sent_path
        (λ netloc. true)
        (codes "http://" ++ local ++ codes "/")
        (codes (request_of 0 question).path)
      ≡ ok (codes (request_of 0 question).path, []))
    × (route numbers (request_of 0 question) ≡ to (route_of numbers 0 question))
unfolding is_rows
route-request_of_example =
    route-request_of numbers 0 (λ netloc. true) local question local-Plain refl refl
      (docs-IsSegment, refl)

abbrev upload : Call
upload = Calls.upload_collection_bundle "docs" (not_zip (1 ∷ 2 ∷ 3 ∷ [])) (some "") "replace"

-- A connection that is the size of its window.
abbrev connection : Connection ℕ
connection = record {
  local_flow_control_window = λ c. c;
  max_outbound_frame_size = λ c. 2;
  send_data = λ c chunk. c - length chunk;
  end_stream = λ c. c;
  receive_data = λ c received. c + length received;
}

-- Three chunks, with a window update in between.
three_chunks :
    send_h2c_body connection (1 ∷ 2 ∷ 3 ∷ 4 ∷ []) ((7 ∷ 7 ∷ []) ∷ []) 3
    ≡ some (sent ((3, 1 ∷ 2 ∷ []) ∷ (1, 3 ∷ []) ∷ (2, 4 ∷ []) ∷ []) 1 [])
unfolding send_h2c_body
three_chunks = refl

send_h2c_body-Sends_example :
    Sends connection
      (1 ∷ 2 ∷ 3 ∷ 4 ∷ [])
      (send_h2c_body connection (1 ∷ 2 ∷ 3 ∷ 4 ∷ []) ((7 ∷ 7 ∷ []) ∷ []) 3)
send_h2c_body-Sends_example =
    send_h2c_body-Sends connection (record { max_outbound_frame_size-pos = λ c. omega arith })
      (1 ∷ 2 ∷ 3 ∷ 4 ∷ []) ((7 ∷ 7 ∷ []) ∷ []) 3

abbrev partial : List (List Event)
partial = (response_received (some 200) ∷ data_received (1 ∷ 2 ∷ []) ∷ []) ∷ []

half_a_body : read_response partial ≡ body_of (1 ∷ 2 ∷ [])
unfolding read_response
half_a_body = refl

read_response-cut_off_example :
    read_response partial ≡ read_response (partial ++ (stream_ended ∷ []) ∷ [])
read_response-cut_off_example = read_response-cut_off partial

abbrev index_download : Download
index_download = record {
  content = 2 ∷ 2 ∷ [];
  version = some 4;
  checksum = none;
  size = some 2;
  format = none;
}

abbrev index_reply : Download
index_reply = record index_download { checksum = some "" }
