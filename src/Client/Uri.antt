-- ===== src/Client/Uri.antt =====
-- `parse_uri` of pyhypervec/pyhypervec/uri.py: the endpoint that a URI stands for, and its transport.
pub mod Laws
pub mod Bare
use hyper_vector.Common.{
  ℕ, Bool, true, false, not, ◌&&◌, ◌||◌, ◌==◌, leb, Option, none, some, [], ◌∷◌, ◌++◌,
  if◌then◌else◌,
}
use hyper_vector.Common.Dict.{codes_eq}
use hyper_vector.Common.Result.{Result, ok, err, value_error, refuse, ◌>>=◌, ◌>>◌}
use hyper_vector.Json.Text.{decimal}
use hyper_vector.Names.{codes}
use hyper_vector.Bundle.Lines.{Text, strip}
use mathlib.Core.List.{reverse}
use hyper_vector.Client.Url.{
  Url, partition, is_empty, is_some, starts_with, urlparse, hostname, has_credentials, port,
}

pub record ParsedUri : Type 0 where
  pub transport : Text
  pub host : Text
  pub port : ℕ
  pub address : Text
  pub http_base : Option Text

abbrev pub is_grpc_scheme : Text → Bool
is_grpc_scheme s = codes_eq s (codes "tcp") || codes_eq s (codes "grpc")

abbrev pub is_http_scheme : Text → Bool
is_http_scheme s = codes_eq s (codes "http") || codes_eq s (codes "https")

-- `_DEFAULT_PORTS` of a supported scheme
abbrev pub default_port : Text → ℕ
default_port s = if is_grpc_scheme s then 50051 else if codes_eq s (codes "http") then 80 else 443

-- `_host_port`
unfoldable pub host_port : Text → ℕ → Text
unfolding partition decimal
host_port host n =
    let rendered =
      if is_some (partition b':' host).1 && not (starts_with (λ c. c == b'[') host)
      then b'[' ∷ host ++ b']' ∷ []
      else host in
    rendered ++ b':' ∷ codes (decimal n)

-- "://" in s
unfoldable pub has_scheme : Text → Bool
has_scheme (a ∷ b ∷ c ∷ s) = (a == b':' && b == b'/' && c == b'/') || has_scheme (b ∷ c ∷ s)
has_scheme _ = false

unfoldable pub normalized : Text → Text
unfolding has_scheme
normalized s = if has_scheme s then s else codes "tcp://" ++ s

-- parsed.port or _DEFAULT_PORTS[scheme]
abbrev pub port_or : ℕ → Option ℕ → ℕ
port_or default none = default
port_or default (some n) = if n == 0 then default else n

-- s.rstrip("/")
unfoldable pub rstrip_slashes : Text → Text
rstrip_slashes [] = []
rstrip_slashes (c ∷ s) =
    let rest = rstrip_slashes s in if c == b'/' && is_empty rest then [] else c ∷ rest

-- urlunparse((scheme, address, path, "", "", ""))
unfoldable pub base_url : Text → Text → Text → Text
base_url scheme address path =
    let rooted = if is_empty path || starts_with (λ c. c == b'/') path then path else b'/' ∷ path in
    scheme ++ codes "://" ++ address ++ rooted

-- The endpoint of each kind, once the parts of the URI have been looked at.
unfoldable pub grpc_endpoint : Url → Text → ℕ → Result ParsedUri
unfolding host_port
grpc_endpoint parsed host n = do
  refuse
      (not (is_empty parsed.path || codes_eq parsed.path (codes "/"))
        || not (is_empty parsed.params)
        || not (is_empty parsed.query)
        || not (is_empty parsed.fragment))
      value_error
  ok (record {
    transport = codes "grpc";
    host = host;
    port = n;
    address = host_port host n;
    http_base = none;
  })

unfoldable pub http_endpoint : Url → Text → ℕ → Result ParsedUri
unfolding host_port base_url rstrip_slashes
http_endpoint parsed host n = ok (record {
  transport = parsed.scheme;
  host = host;
  port = n;
  address = host_port host n;
  http_base = some (base_url parsed.scheme (host_port host n) (rstrip_slashes parsed.path));
})

unfoldable pub endpoint : Url → Text → ℕ → Result ParsedUri
unfolding grpc_endpoint http_endpoint
endpoint parsed host n =
    if is_grpc_scheme parsed.scheme
    then grpc_endpoint parsed host n
    else http_endpoint parsed host n

-- All that is looked at after `urlparse`.
unfoldable pub checked_endpoint : Url → Result ParsedUri
unfolding hostname has_credentials port endpoint
checked_endpoint parsed = do
  refuse (not (is_grpc_scheme parsed.scheme || is_http_scheme parsed.scheme)) value_error
  refuse (has_credentials parsed.netloc) value_error
  refuse (is_empty (hostname parsed.netloc)) value_error
  given ← port parsed.netloc
  let n = port_or (default_port parsed.scheme) given
  refuse (not (leb 1 n && leb n 65535)) value_error
  endpoint parsed (hostname parsed.netloc) n

unfoldable pub parse_uri : (Text → Bool) → Text → Result ParsedUri
unfolding strip normalized urlparse checked_endpoint
parse_uri accepts uri = do
  refuse (is_empty (strip uri)) value_error
  parsed ← urlparse accepts (normalized (strip uri))
  checked_endpoint parsed
