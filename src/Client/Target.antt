-- ===== src/Client/Target.antt =====
-- Where a request over HTTP/2 cleartext goes (pyhypervec/pyhypervec/client.py: `__init__`,
-- `_request_h2c`).
pub mod Laws
use hyper_vector.Common.{ℕ, Bool, ◌==◌, Option, none, some, [], ◌∷◌, ◌++◌, if◌then◌else◌}
use hyper_vector.Common.Result.{Result, ok, ◌>>=◌}
use hyper_vector.Json.Text.{decimal}
use hyper_vector.Names.{codes}
use hyper_vector.Bundle.Lines.{Text}
use hyper_vector.Client.Url.{is_empty, text_or_empty, urlparse, hostname, port}
use hyper_vector.Client.Url.Join.{url_join}
use hyper_vector.Client.Uri.{ParsedUri, rstrip_slashes, port_or}

-- self.uri of a client for HTTP
unfoldable pub base_uri : ParsedUri → Text
unfolding rstrip_slashes
base_uri p = rstrip_slashes (text_or_empty p.http_base) ++ b'/' ∷ []

-- path.lstrip("/")
unfoldable pub lstrip_slashes : Text → Text
lstrip_slashes [] = []
lstrip_slashes (c ∷ s) = let rest = lstrip_slashes s in if c == b'/' then rest else c ∷ s

-- The path and the query of the URL that a request is sent to.
unfoldable pub sent_path : (Text → Bool) → Text → Text → Result (Text × Text)
unfolding url_join urlparse lstrip_slashes
sent_path accepts uri path = do
  url ← url_join accepts uri (lstrip_slashes path)
  parsed ← urlparse accepts url
  ok (parsed.path, parsed.query)

pub record Target : Type 0 where
  pub host : Text
  pub port : ℕ
  pub authority : Text
  pub request_path : Text

-- The path, or "/", with the query behind it.
abbrev full_path : Text → Text → Text
full_path path query =
    (if is_empty path then codes "/" else path) ++ (if is_empty query then [] else b'?' ∷ query)

-- An address with colons gets no brackets here.
abbrev authority_of : Text → Option ℕ → Text
authority_of host none = host
authority_of host (some n) = host ++ b':' ∷ codes (decimal (port_or 80 (some n)))

-- `none` is the HypervecClientError on a URI without a host.
unfoldable pub h2c_target : (Text → Bool) → Text → Text → Result (Option Target)
unfolding url_join urlparse hostname port lstrip_slashes decimal
h2c_target accepts uri path = do
  url ← url_join accepts uri (lstrip_slashes path)
  parsed ← urlparse accepts url
  let host = hostname parsed.netloc
  if is_empty host then ok none else (do
    given ← port parsed.netloc
    ok (
        some (record {
          host = host;
          port = port_or 80 given;
          authority = authority_of host given;
          request_path = full_path parsed.path parsed.query;
        })))
