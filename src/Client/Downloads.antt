-- ===== src/Client/Downloads.antt =====
-- What `download_index` and `download_collection_bundle` save and return, over HTTP
-- (pyhypervec/pyhypervec/client.py) and over gRPC (pyhypervec/pyhypervec/_grpc_transport.py).
use hyper_vector.Common.{ℕ, ◌≡◌, refl, subst, String, Option, none, some, List, length}
use hyper_vector.Json.Text.{decimal}
use hyper_vector.Engine.Answer.{Download, download}
use hyper_vector.Http.Routes.{if_truthy}
use hyper_vector.Grpc.{text_or_none, or_empty}
use hyper_vector.Grpc.Servicer.{size_or}
use hyper_vector.Client.Agreement.{as_message, text_or_none-or_empty, size_or_self}

-- The file that is written, and the entries of the result. A bundle has no size among them, and an index
-- no format.
pub record Saved : Type 0 where
  pub content : List ℕ
  pub bytes : ℕ
  pub version : Option String
  pub checksum : Option String
  pub size_bytes : Option String
  pub format : Option String

abbrev text_of : Option ℕ → Option String
text_of none = none
text_of (some n) = some (decimal n)

-- `_header_value`: a header that is missing or empty is `None`.
unfoldable pub header_value : Option String → Option String
header_value o = if_truthy o

-- From the headers of the response, which are texts.
unfoldable pub save_http : Download → Saved
unfolding header_value
save_http d = record {
  content = d.content;
  bytes = length d.content;
  version = text_of d.version;
  checksum = header_value d.checksum;
  size_bytes = text_of d.size;
  format = header_value d.format;
}

-- From the fields of the message, of which a number that is not set is 0, and a text is empty.
abbrev number_or_zero : Option ℕ → ℕ
number_or_zero none = 0
number_or_zero (some n) = n

unfoldable pub save_grpc : Download → Saved
save_grpc d = record {
  content = d.content;
  bytes = length d.content;
  version = some (decimal (number_or_zero d.version));
  checksum = text_or_none (or_empty d.checksum);
  size_bytes = some (decimal (number_or_zero d.size));
  format = text_or_none (or_empty d.format);
}

message_of : Download → Download
message_of d = record d {
  checksum = some (or_empty d.checksum);
  size = some (size_or d.size (length d.content));
}

download_inj : {d e : Download} → download d ≡ download e → d ≡ e
download_inj h = cc

save-message_of :
    (d : Download) (v : ℕ)
    → d.version ≡ some v
    → d.size ≡ some (length d.content)
    → save_grpc (message_of d) ≡ save_http d
unfolding save_grpc save_http header_value message_of
save-message_of d v known sized =
    rw
      (
        known,
        sized,
        size_or_self (length d.content),
        text_or_none-or_empty d.checksum,
        text_or_none-or_empty d.format,
      )
      refl

-- A download that tells its version and its size, which is that of its content, is saved and described to
-- the caller in the same way over both transports.
pub saved_agree :
    (d e : Download) (v : ℕ)
    → d.version ≡ some v
    → d.size ≡ some (length d.content)
    → as_message (download d) ≡ download e
    → save_grpc e ≡ save_http d
unfolding as_message message_of
saved_agree d e v known sized same =
    subst (λ m. save_grpc m ≡ save_http d) (download_inj same) (save-message_of d v known sized)
