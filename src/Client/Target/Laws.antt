-- ===== src/Client/Target/Laws.antt =====
-- Where the requests of a client for `http://host:port` go.
use hyper_vector.Common.{
  ℕ, ◌==◌, ◌≡◌, ◌≢◌, ◌≤◌, refl, ap, ◌∙◌, Bool, true, false, some, List, [], ◌∷◌, ◌++◌, append-nil,
}
use hyper_vector.Common.Dict.{codes_eq}
use hyper_vector.Common.Result.{ok, ◌>>=◌}
use hyper_vector.Json.Text.{decimal}
use hyper_vector.Names.{codes, is_name_char, is_alnum}
use hyper_vector.Bundle.Lines.{Text, is_space}
use hyper_vector.Client.Url.{starts_with, is_empty, urlparse, urlparse_or, lower_code}
use hyper_vector.Client.Url.Plain.{
  Lacks, Plain, is_plain, Visible, strip-Visible, Plain-Visible, Plain-Lacks, partition-Lacks,
  split_netloc-Plain, remove_breaks-Plain,
}
use hyper_vector.Client.Url.Join.{join_slashes, url_join}
use hyper_vector.Client.Url.Join.Segments.{Segment}
use hyper_vector.Client.Url.Join.Collections.{
  http_url, Segments, join_slashes-IsPath, starts-join_slashes, url_join-relative, urlparse-http,
}
use hyper_vector.Client.Uri.{
  ParsedUri, parse_uri, normalized, has_scheme, checked_endpoint, endpoint, http_endpoint, base_url,
  rstrip_slashes,
}
use hyper_vector.Client.Uri.Bare.{
  digits, bare-Plain, hostname-bare, port-bare, leb-true, port_or-pos, nonempty, nonempty-append,
  has_credentials-bare, host_port-bare,
}
use hyper_vector.Client.Target.{h2c_target, sent_path, base_uri, lstrip_slashes}

rstrip_slashes-Lacks : (s : Text) → Lacks b'/' s → rstrip_slashes s ≡ s
unfolding rstrip_slashes
rstrip_slashes-Lacks [] h = refl
rstrip_slashes-Lacks (c ∷ s) h = rw (rstrip_slashes-Lacks s h.1, h.0) refl

scheme-Visible : (s : Text) → Plain s → Visible (codes "http://" ++ s)
unfolding is_space
scheme-Visible s h = (refl, (refl, (refl, (refl, (refl, (refl, (refl, Plain-Visible s h)))))))

normalized-http : (s : Text) → normalized (codes "http://" ++ s) ≡ codes "http://" ++ s
unfolding normalized has_scheme
normalized-http s = refl

urlparse-bare :
    (accepts : Text → Bool) (s : Text)
    → Plain s
    → accepts s ≡ true
    → urlparse accepts (codes "http://" ++ s) ≡ ok (http_url s [])
unfolding urlparse urlparse_or is_plain lower_code codes_eq
urlparse-bare accepts s h good =
    rw
      (
        remove_breaks-Plain s h,
        split_netloc-Plain s h,
        partition-Lacks b'[' s (Plain-Lacks b'[' refl s h),
        partition-Lacks b']' s (Plain-Lacks b']' refl s h),
        good,
      )
      refl

collections-Segment : Segment (codes "collections")
unfolding is_name_char is_alnum
collections-Segment =
    (refl, (refl, (refl, (refl, (refl, (refl, (refl, (refl, (refl, (refl, (refl, tt)))))))))))

lstrip_slashes-relative : (p : Text) → starts_with (λ c. c == b'/') p ≡ false → lstrip_slashes p ≡ p
unfolding lstrip_slashes
lstrip_slashes-relative [] h = refl
lstrip_slashes-relative (c ∷ p) h = rw h refl

sent_path-relative :
    (accepts : Text → Bool) (uri p : Text)
    → lstrip_slashes p ≡ p
    → sent_path accepts uri (b'/' ∷ p) ≡ (do
      url ← url_join accepts uri p
      parsed ← urlparse accepts url
      ok (parsed.path, parsed.query))
unfolding sent_path lstrip_slashes
sent_path-relative accepts uri p e =
    ap
      (λ q. do
        url ← url_join accepts uri q
        parsed ← urlparse accepts url
        ok (parsed.path, parsed.query))
      e

-- A path of segments is sent as it is written.
pub sent_path-Segments :
    (accepts : Text → Bool) (s l : Text) (ls : List Text)
    → Plain s
    → accepts s ≡ true
    → accepts [] ≡ true
    → Segments (l ∷ ls)
    → is_empty l ≡ false
    → sent_path accepts (codes "http://" ++ s ++ codes "/") (b'/' ∷ join_slashes (l ∷ ls))
      ≡ ok (b'/' ∷ join_slashes (l ∷ ls), [])
sent_path-Segments accepts s l ls p good none_good h given =
    sent_path-relative accepts _ _ (lstrip_slashes-relative _ (starts-join_slashes l ls h given).0)
    ∙ rw
        (
          url_join-relative l ls h given accepts s p good none_good,
          urlparse-http accepts s (join_slashes (l ∷ ls)) p (join_slashes-IsPath l ls h) good,
        )
        refl

module _ (host : Text) (n : ℕ) (h : Plain host) (no_colon : Lacks b':' host) (name action : Text)
    (named : Segment name) (a : Segment action) (given : is_empty name ≡ false)
    (accepts : Text → Bool) where
  abbrev path : Text
  path = codes "/collections/" ++ name ++ b'/' ∷ action

  abbrev authority : Text
  authority = host ++ b':' ∷ digits n

  segments : Segments (codes "collections" ∷ name ∷ action ∷ [])
  segments = (collections-Segment, refl, (named, given, a))

  target-base :
      1 ≤ n
      → n ≤ 65535
      → is_empty host ≡ false
      → accepts authority ≡ true
      → accepts [] ≡ true
      → h2c_target accepts (codes "http://" ++ authority ++ codes "/") path
        ≡ ok (some (record { host = host; port = n; authority = authority; request_path = path }))
  unfolding h2c_target lstrip_slashes join_slashes
  target-base pos fits hosted good none_good =
      rw
        (
          url_join-relative (codes "collections") (name ∷ action ∷ []) segments refl accepts
              authority (bare-Plain host n h no_colon) good none_good,
          urlparse-http accepts authority (codes "collections/" ++ name ++ b'/' ∷ action)
              (bare-Plain host n h no_colon)
              (join_slashes-IsPath (codes "collections") (name ∷ action ∷ []) segments) good,
          hostname-bare host n h no_colon,
          hosted,
          port-bare host n h no_colon pos fits,
        )
        (ap
            (λ m. ok (
              some (record {
                host = host;
                port = m;
                authority = host ++ b':' ∷ codes (decimal m);
                request_path = path ++ [];
              })))
            (port_or-pos 80 n pos)
          ∙ ap
              (λ q.
                ok (
                  some (record { host = host; port = n; authority = authority; request_path = q })))
              (append-nil path))

  -- The endpoint for HTTP of the host and the port.
  abbrev endpoint_of : ParsedUri
  endpoint_of = record {
    transport = codes "http";
    host = host;
    port = n;
    address = authority;
    http_base = some (codes "http://" ++ authority);
  }

  checked-http :
      1 ≤ n
      → n ≤ 65535
      → is_empty host ≡ false
      → checked_endpoint (http_url authority []) ≡ ok endpoint_of
  unfolding checked_endpoint endpoint http_endpoint base_url codes_eq rstrip_slashes
  checked-http pos fits hosted =
      rw
        (
          has_credentials-bare host n h no_colon,
          hostname-bare host n h no_colon,
          hosted,
          port-bare host n h no_colon pos fits,
          port_or-pos 80 n pos,
          leb-true pos,
          leb-true fits,
          host_port-bare host n h no_colon,
          append-nil,
        )
        refl

  parse-http :
      1 ≤ n
      → n ≤ 65535
      → is_empty host ≡ false
      → accepts authority ≡ true
      → parse_uri accepts (codes "http://" ++ authority) ≡ ok endpoint_of
  unfolding parse_uri
  parse-http pos fits hosted good =
      let p = bare-Plain host n h no_colon in
      rw
        (
          parse_uri,
          strip-Visible (codes "http://" ++ authority) (scheme-Visible authority p),
          normalized-http authority,
          urlparse-bare accepts authority p good,
        )
        (checked-http pos fits hosted)

  base-bare : base_uri endpoint_of ≡ codes "http://" ++ authority ++ codes "/"
  unfolding base_uri rstrip_slashes is_plain
  base-bare =
      rw
        (
          rstrip_slashes-Lacks authority
              (Plain-Lacks b'/' refl authority (bare-Plain host n h no_colon)),
          nonempty-append host b':' (digits n),
        )
        refl

  -- A client that is given `http://host:port` sends a request about a collection to that host and port over
  -- HTTP/2 cleartext, with the authority as it was given and the path as the client wrote it. The host is
  -- made of small letters, digits, dashes, dots and underscores, the port is one of TCP, the name and the
  -- action are made of letters, digits, dashes and underscores, and `urlsplit` accepts the authority, and
  -- that of a URL that has none.
  pub target-reached :
      1 ≤ n
      → n ≤ 65535
      → host ≢ []
      → accepts authority ≡ true
      → accepts [] ≡ true
      → (p : ParsedUri) × (parse_uri accepts (codes "http://" ++ authority) ≡ ok p)
        × (h2c_target accepts (base_uri p) path
            ≡ ok (
                some
                  (record { host = host; port = n; authority = authority; request_path = path })))
  target-reached pos fits some_host good none_good =
      let hosted = nonempty host some_host in
      (
        endpoint_of,
        parse-http pos fits hosted good,
        ap (λ b. h2c_target accepts b path) base-bare ∙ target-base pos fits hosted good none_good,
      )
