-- ===== src/Client/Uri/Laws.antt =====
-- What `parse_uri` of pyhypervec/pyhypervec/uri.py returns.
use hyper_vector.Common.{
  ℕ, ◌≡◌, ◌≢◌, ◌≤◌, ◌⊎◌, inl, inr, refl, sym, ap, subst, ◌∙◌, Bool, true, false, not, ◌&&◌, ◌||◌,
  none, some, [], leb, arith, false≢true, if◌then◌else◌,
}
use hyper_vector.Common.Result.{ok, >>=-eq-ok, refuse-eq-ok, ok_inj}
use hyper_vector.Names.{codes}
use hyper_vector.Bundle.Lines.{Text, strip}
use hyper_vector.Client.Url.{Url, is_empty, hostname, port, urlparse}
use hyper_vector.Client.Uri.{
  ParsedUri, is_grpc_scheme, is_http_scheme, host_port, parse_uri, endpoint, checked_endpoint,
  grpc_endpoint, http_endpoint, port_or, default_port, normalized,
}

-- What can be connected to: a host, a port that TCP has, and one of the three transports, of which
-- the two of HTTP have a base for their requests.
pub record IsEndpoint (p : ParsedUri) : Type 0 where
  pub host_given : p.host ≢ []
  pub port_pos : 1 ≤ p.port
  pub port_fits : p.port ≤ 65535
  pub addressed : p.address ≡ host_port p.host p.port
  pub reachable :
      ((p.transport ≡ codes "grpc") × (p.http_base ≡ none))
      ⊎ ((is_http_scheme p.transport ≡ true) × (b : Text) × (p.http_base ≡ some b))

module _ (parsed : Url) (host : Text) (n : ℕ) (p : ParsedUri) (given : host ≢ []) (pos : 1 ≤ n)
    (fits : n ≤ 65535) where
  grpc_endpoint-IsEndpoint : grpc_endpoint parsed host n ≡ ok p → IsEndpoint p
  unfolding grpc_endpoint
  grpc_endpoint-IsEndpoint done =
      let (_, d) = refuse-eq-ok _ _ _ done in
      subst IsEndpoint (ok_inj d) (record {
        host_given = given;
        port_pos = pos;
        port_fits = fits;
        addressed = refl;
        reachable = inl (refl, refl);
      })

  http_endpoint-IsEndpoint :
      is_http_scheme parsed.scheme ≡ true → http_endpoint parsed host n ≡ ok p → IsEndpoint p
  unfolding http_endpoint
  http_endpoint-IsEndpoint scheme done = subst IsEndpoint (ok_inj done) (record {
    host_given = given;
    port_pos = pos;
    port_fits = fits;
    addressed = refl;
    reachable = inr (scheme, _, refl);
  })

  by_scheme :
      (grpc http : Bool)
      → is_http_scheme parsed.scheme ≡ http
      → (grpc || http) ≡ true
      → (if grpc then grpc_endpoint parsed host n else http_endpoint parsed host n) ≡ ok p
      → IsEndpoint p
  by_scheme true http e s done = grpc_endpoint-IsEndpoint done
  by_scheme false true e s done = http_endpoint-IsEndpoint e done
  by_scheme false false e s done = absurd (false≢true s)

in_range : (n : ℕ) → not (leb 1 n && leb n 65535) ≡ false → (1 ≤ n) × (n ≤ 65535)
in_range n h = ground arith

given_text : (s : Text) → is_empty s ≡ false → s ≢ []
given_text s h e = false≢true (sym h ∙ ap is_empty e)

denied : (b : Bool) → not b ≡ false → b ≡ true
denied true h = refl
denied false h = absurd (false≢true (sym h))

-- Whatever URI is parsed, the result has a host, a port that TCP has, and one of the three transports, of
-- which the two of HTTP have a base for their requests.
pub parse_uri-IsEndpoint :
    (accepts : Text → Bool) (uri : Text) (p : ParsedUri)
    → parse_uri accepts uri ≡ ok p
    → IsEndpoint p
unfolding parse_uri checked_endpoint endpoint
parse_uri-IsEndpoint accepts uri p done =
    let (_, d1) = refuse-eq-ok _ _ _ done in
    let (parsed, _, d2) = >>=-eq-ok (urlparse accepts (normalized (strip uri))) _ d1 in
    let (supported, d3) = refuse-eq-ok _ _ _ d2 in
    let (_, d4) = refuse-eq-ok _ _ _ d3 in
    let (hosted, d5) = refuse-eq-ok _ _ _ d4 in
    let (given, _, d6) = >>=-eq-ok (port parsed.netloc) _ d5 in
    let n = port_or (default_port parsed.scheme) given in
    let (ranged, d7) = refuse-eq-ok _ _ _ d6 in
    let (pos, fits) = in_range n ranged in
    by_scheme parsed (hostname parsed.netloc) n p (given_text _ hosted) pos fits
      (is_grpc_scheme parsed.scheme) _ refl (denied _ supported) d7
