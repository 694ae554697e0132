-- ===== src/Client/Agreement.antt =====
-- One call in both servers: the handler of src/python/hypervec_http_server.py, and the method of the servicer of
-- src/python/hypervec_grpc_server.py.
use hyper_vector.Common.{
  ℕ, ◌≡◌, ◌⊎◌, refl, String, false, Option, none, some, length, str_eq, ltb, arith,
}
use hyper_vector.Common.Result.{Result}
use hyper_vector.Common.Exec.{Exec}
use hyper_vector.Json.{Json}
use hyper_vector.Engine.State.{Host}
use hyper_vector.Engine.Server.{Server}
use hyper_vector.Engine.Lifecycle
use hyper_vector.Engine.Lifecycle.{created_entry}
use hyper_vector.Engine.Upload
use hyper_vector.Engine.Answer.{Answer, download}
use hyper_vector.Http
use hyper_vector.Http.{Response, sent, failed}
use hyper_vector.Http.Routes
use hyper_vector.Http.Routes.{if_truthy, max_bundle_upload_bytes}
use hyper_vector.Grpc
use hyper_vector.Grpc.{
  StatusCode, not_found, already_exists, failed_precondition, invalid_argument, internal, Reply,
  replied, aborted, text_or_none, or_empty,
}
use hyper_vector.Grpc.Servicer
use hyper_vector.Grpc.Servicer.{size_or}
use hyper_vector.Client.Calls
use hyper_vector.Client.Calls.{Call}

-- The HTTP status for a status code of gRPC.
unfoldable pub http_code : StatusCode → ℕ
http_code not_found = 404
http_code already_exists = 409
http_code failed_precondition = 409
http_code invalid_argument = 400
http_code internal = 500

-- A download as a gRPC message has it: no checksum is the empty text, and no size, or the size 0, is the
-- length of the content.
unfoldable pub as_message : Answer → Answer
as_message (download d) = download (record d {
  checksum = some (or_empty d.checksum);
  size = some (size_or d.size (length d.content));
})
as_message a = a

-- The same answer, or the same class of failure. A TypeError is a fault of the server over HTTP, and
-- of the request over gRPC.
abbrev pub Agrees : Response Answer → Reply Answer → Type 0
Agrees (sent a) (replied b) = as_message a ≡ b
Agrees (failed n) (aborted c) = (n ≡ http_code c) ⊎ ((n ≡ 500) × (c ≡ invalid_argument))
Agrees (sent a) (aborted c) = ⊥
Agrees (failed n) (replied b) = ⊥

abbrev pub SameOutcome : {S : Type 0} → Response Answer × S → Reply Answer × S → Type 0
SameOutcome (r, s) (q, t) = Agrees r q × (s ≡ t)

pub text_or_none-or_empty : (o : Option String) → text_or_none (or_empty o) ≡ if_truthy o
text_or_none-or_empty none = refl
text_or_none-or_empty (some s) = refl

pub size_or_self : (n : ℕ) → size_or (some n) n ≡ n
size_or_self n = ground arith

-- What is asked of an upload of a bundle: the header tells its length, which is within the limit of the
-- HTTP server, and the mode is not empty.
abbrev pub IsWithin : {Index : Type 0} → Host Index → ℕ → Call → Type 0
IsWithin host size (Calls.upload_collection_bundle name file checksum mode) =
    (length (host.file_bytes file) ≡ size)
    × (ltb max_bundle_upload_bytes size ≡ false)
    × (str_eq mode "" ≡ false)
IsWithin host size _ = Unit
