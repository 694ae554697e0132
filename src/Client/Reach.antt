-- ===== src/Client/Reach.antt =====
-- The states that a server gets into by requests: those that src/python/hypervec_http_server.py receives, of
-- whatever form, and the rpcs that pyhypervec/pyhypervec/_grpc_transport.py makes.
mod Keyed
use mathlib.Core.List.{Mem}
use hyper_vector.Common.{
  ℕ, ◌≡◌, ◌↔◌, ◌≢◌, refl, String, true, Option, none, some, List, [], ◌==◌, length, arith,
}
use hyper_vector.Common.Dict
use hyper_vector.Common.Dict.{Dict, string_key}
use hyper_vector.Common.Result.{Result, ok, err, value_error}
use hyper_vector.Common.Exec.{Keeps, bind-Keeps, refuse-Keeps, pure, refuse, ◌>>=◌, ◌>>◌}
use hyper_vector.Json.{Json, end}
use hyper_vector.Names.{codes, validate_collection_name}
use hyper_vector.Engine.Search.{Matrix, Numbers}
use hyper_vector.Engine.State.{Host}
use hyper_vector.Engine.Server.{Server, view, call, call_checked, unlink_bundle, list_collections}
use hyper_vector.Engine.Server.Keyed.{IsKeyed, call-IsKeyed, mem-list_collections}
use hyper_vector.Engine.Server.Named.{
  export-KeepsName, import-KeepsName, flush-KeepsName, insert-KeepsName, load-KeepsName,
  search-KeepsName, upload-KeepsName, path-KeepsName, sync_check-KeepsName, purge-KeepsName,
  create-KeepsName, describe-KeepsName, version-KeepsName, drop-KeepsName,
}
use hyper_vector.Engine.Lifecycle
use hyper_vector.Engine.Upload
use hyper_vector.Engine.Export.{Exported}
use hyper_vector.Engine.Answer.{Answer, Download, download, existing}
use hyper_vector.Meta.{CollectionMeta}
use hyper_vector.Http
use hyper_vector.Http.{sent, response}
use hyper_vector.Http.Routes.{index_file, index_params_or_default, exceeds}
use hyper_vector.Grpc
use hyper_vector.Grpc.{replied, reply, text_or_none, or_empty}
use hyper_vector.Grpc.Servicer
use hyper_vector.Grpc.Servicer.{index_message, params_or_default}
use hyper_vector.Http.Routes
use hyper_vector.Http.Router
use hyper_vector.Http.Router.{Request, Route, Routed, route, handle, answer}
use hyper_vector.Client.Calls
use hyper_vector.Client.Calls.{Call}
use hyper_vector.Client.Rest.{fields_or, texts_or_none, no_indexes}
use hyper_vector.Client.Stub.{rpc_of}
use Keyed.{answer-IsKeyed, rpc-IsKeyed}

-- A server that starts with no collections, and each request that it receives.
pub data Reach {Index : Type 0} (host : Host Index) (index_path : String → String)
    (numbers : Numbers) : Server Index → Type 0 where
  start : (s : Server Index) → s.metas ≡ [] → Reach host index_path numbers s
  http :
      {s : Server Index} (now : ℕ) (r : Request)
      → Reach host index_path numbers s
      → Reach host index_path numbers (answer host index_path now (route numbers r) s).1
  rpc :
      {s : Server Index} (now : ℕ) (c : Call)
      → Reach host index_path numbers s
      → Reach host index_path numbers (rpc_of host index_path numbers now c s).1

has_checked :
    {Index : Type 0} (name : String) (s : Server Index) (v : Result (List ℕ))
    → v ≡ ok (codes name)
    → (response existing (call_checked v name Lifecycle.has_collection s).0 ≡ sent (existing true))
      ↔ (Dict.get s.metas name ≢ none)
unfolding response Lifecycle.has_collection view
has_checked name s (ok n) valid = by_entry (Dict.get s.metas name)
  where
    by_entry :
        (o : Option CollectionMeta)
        → (sent (existing (Lifecycle.exists o)) ≡ sent (existing true)) ↔ (o ≢ none)
    by_entry none = (λ h. cc, λ h. absurd (h refl))
    by_entry (some m) = (λ h e. cc, λ h. refl)
has_checked name s (err e) valid = absurd (ground arith)

module _ {Index : Type 0} (host : Host Index) (index_path : String → String)
    (numbers : Numbers) where
  Reach-IsKeyed : {s : Server Index} → Reach host index_path numbers s → IsKeyed s
  Reach-IsKeyed (start s empty) = rw empty tt
  Reach-IsKeyed (http now r before) =
      answer-IsKeyed host index_path now (route numbers r) _ (Reach-IsKeyed before)
  Reach-IsKeyed (rpc now c before) =
      rpc-IsKeyed host index_path now numbers c _ (Reach-IsKeyed before)

  -- In every state that a server with no collections gets into by HTTP requests and rpcs, a valid name is
  -- listed exactly if `has_collection` answers that it exists.
  pub listed-has_collection :
      {s : Server Index} (name : String)
      → Reach host index_path numbers s
      → validate_collection_name (codes name) ≡ ok (codes name)
      → Mem name (list_collections s) ↔ ((Routes.has_collection name s).0 ≡ sent (existing true))
  unfolding Routes.has_collection Http.attempt
  listed-has_collection {s} name reached valid =
      let listed = mem-list_collections s name (Reach-IsKeyed reached) in
      let has = has_checked name s (validate_collection_name (codes name)) valid in
      (λ m. has.1 (listed.0 m), λ e. listed.1 (has.0 e))
