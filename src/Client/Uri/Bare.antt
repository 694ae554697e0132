-- ===== src/Client/Uri/Bare.antt =====
-- Endpoints of the form `host:port`.
use hyper_vector.Common.{
  ℕ, ◌≡◌, ◌≢◌, ◌≤◌, ◌*◌, ◌+◌, ◌-◌, refl, ap, ◌∙◌, Bool, true, false, ◌==◌, leb, none, some, [], ◌∷◌,
  ◌++◌, All, arith, append-nil,
}
use hyper_vector.Common.Dict.{codes_eq}
use hyper_vector.Common.Result.{ok}
use hyper_vector.Names.{codes}
use hyper_vector.Json.Text.{decimal}
use hyper_vector.Json.Text.Decimal.{value-decimal, digits-decimal, value_from}
use hyper_vector.Bundle.Lines.{Text}
use hyper_vector.Client.Url.{
  is_empty, is_digit, all, int_from, urlparse, hostinfo, split_host, lower_code, port_number,
  hostname, has_credentials, port,
}
use hyper_vector.Client.Url.Plain.{
  Lacks, Plain, is_plain, Plain-Lacks, partition-Lacks, partition-at, after_last-Lacks, All-append,
  All-mono, before_last-Lacks, remove_breaks-Plain, split_netloc-Plain, strip-Plain, lower-Plain,
}
use hyper_vector.Client.Uri.{
  has_scheme, normalized, host_port, endpoint, grpc_endpoint, checked_endpoint, port_or, parse_uri,
}

has_scheme-Lacks : (s : Text) → Lacks b'/' s → has_scheme s ≡ false
unfolding has_scheme
has_scheme-Lacks [] h = refl
has_scheme-Lacks (a ∷ []) h = refl
has_scheme-Lacks (a ∷ b ∷ []) h = refl
has_scheme-Lacks (a ∷ b ∷ c ∷ s) h = rw (h.1.0, has_scheme-Lacks (b ∷ c ∷ s) h.1) (ground arith)

-- The authority `s` after the scheme that `normalized` puts in front.
urlparse-Plain :
    (accepts : Text → Bool) (s : Text)
    → Plain s
    → accepts s ≡ true
    → urlparse accepts (codes "tcp://" ++ s)
      ≡ ok (record {
        scheme = codes "tcp";
        netloc = s;
        path = [];
        params = [];
        query = [];
        fragment = [];
      })
unfolding urlparse is_plain lower_code
urlparse-Plain accepts s h good =
    rw
      (
        remove_breaks-Plain s h,
        split_netloc-Plain s h,
        partition-Lacks b'[' s (Plain-Lacks b'[' refl s h),
        partition-Lacks b']' s (Plain-Lacks b']' refl s h),
        good,
      )
      refl

abbrev pub digits : ℕ → Text
digits n = codes (decimal n)

digit_plain : (c : ℕ) → (b'0' ≤ c) × (c ≤ b'9') → is_plain c ≡ true
unfolding is_plain
digit_plain c h = ground arith

digit_colon : (c : ℕ) → (b'0' ≤ c) × (c ≤ b'9') → (c == b':') ≡ false
digit_colon c h = ground arith

pub leb-true : {m n : ℕ} → m ≤ n → leb m n ≡ true
leb-true h = ground arith

all-IsDigit : (s : Text) → All (λ c. (b'0' ≤ c) × (c ≤ b'9')) s → all is_digit s ≡ true
unfolding is_digit
all-IsDigit [] h = refl
all-IsDigit (c ∷ s) h = ground (arith, all-IsDigit s h.1)

int_from-value : (n : ℕ) (s : Text) → int_from n s ≡ value_from n s
unfolding int_from
int_from-value n [] = refl
int_from-value n (d ∷ s) = int_from-value (n * 10 + (d - b'0')) s

port_number-digits :
    (s : Text) (n : ℕ)
    → all is_digit s ≡ true
    → int_from 0 s ≡ n
    → 1 ≤ n
    → n ≤ 65535
    → port_number s ≡ ok (some n)
unfolding port_number int_from
port_number-digits [] n digits value pos fits = absurd (omega (arith, value))
port_number-digits (d ∷ s) n digits value pos fits = rw (digits, value, leb-true fits) refl

pub port_or-pos : (d n : ℕ) → 1 ≤ n → port_or d (some n) ≡ n
port_or-pos d n h = ground arith

pub nonempty : (s : Text) → s ≢ [] → is_empty s ≡ false
nonempty [] h = absurd (h refl)
nonempty (c ∷ s) h = refl

pub nonempty-append : (s : Text) (c : ℕ) (t : Text) → is_empty (s ++ c ∷ t) ≡ false
nonempty-append [] c t = refl
nonempty-append (d ∷ s) c t = refl

module _ (host : Text) (n : ℕ) (h : Plain host) (no_colon : Lacks b':' host) where
  pub bare-Plain : Plain (host ++ b':' ∷ digits n)
  unfolding is_plain
  bare-Plain =
      All-append (λ c. is_plain c ≡ true) host (b':' ∷ digits n) h
        (refl, All-mono digit_plain (digits n) (digits-decimal n))

  pub hostinfo-bare : hostinfo (host ++ b':' ∷ digits n) ≡ (host, digits n)
  unfolding hostinfo split_host is_plain
  hostinfo-bare =
      let s = host ++ b':' ∷ digits n in
      ap split_host (after_last-Lacks b'@' s s (Plain-Lacks b'@' refl s bare-Plain)) ∙ split
    where
      split : split_host (host ++ b':' ∷ digits n) ≡ (host, digits n)
      split =
          rw
            (
              split_host,
              partition-Lacks b'[' _ (Plain-Lacks b'[' refl _ bare-Plain),
              partition-at b':' host (digits n) no_colon,
            )
            refl

  pub hostname-bare : hostname (host ++ b':' ∷ digits n) ≡ host
  unfolding hostname is_plain
  hostname-bare =
      rw
        (
          hostinfo-bare,
          partition-Lacks b'%' host (Plain-Lacks b'%' refl host h),
          lower-Plain host h,
          append-nil,
        )
        refl

  pub has_credentials-bare : has_credentials (host ++ b':' ∷ digits n) ≡ false
  unfolding has_credentials is_plain
  has_credentials-bare =
      rw (has_credentials, before_last-Lacks b'@' _ (Plain-Lacks b'@' refl _ bare-Plain)) refl

  pub host_port-bare : host_port host n ≡ host ++ b':' ∷ digits n
  unfolding host_port
  host_port-bare = rw (partition-Lacks b':' host no_colon) refl

  pub port-bare : 1 ≤ n → n ≤ 65535 → port (host ++ b':' ∷ digits n) ≡ ok (some n)
  unfolding port
  port-bare pos fits =
      ap (λ i. port_number i.1) hostinfo-bare
      ∙ port_number-digits (digits n) n (all-IsDigit (digits n) (digits-decimal n))
          (int_from-value 0 (digits n) ∙ value-decimal n) pos fits

  checked_endpoint-bare :
      1 ≤ n
      → n ≤ 65535
      → is_empty host ≡ false
      → checked_endpoint (record {
        scheme = codes "tcp";
        netloc = host ++ b':' ∷ digits n;
        path = [];
        params = [];
        query = [];
        fragment = [];
      })
        ≡ ok (record {
          transport = codes "grpc";
          host = host;
          port = n;
          address = host ++ b':' ∷ digits n;
          http_base = none;
        })
  unfolding checked_endpoint endpoint grpc_endpoint codes_eq
  checked_endpoint-bare pos fits given =
      rw
        (
          has_credentials-bare,
          hostname-bare,
          given,
          port-bare pos fits,
          port_or-pos 50051 n pos,
          leb-true pos,
          leb-true fits,
          host_port-bare,
        )
        refl

  -- Any host and port from 1 to 65535, written as `host:port` with the host in small letters and digits,
  -- is the endpoint of that host and port for gRPC, if `urlsplit` accepts it as an authority.
  pub parse_uri-bare :
      (accepts : Text → Bool)
      → host ≢ []
      → 1 ≤ n
      → n ≤ 65535
      → accepts (host ++ b':' ∷ digits n) ≡ true
      → parse_uri accepts (host ++ b':' ∷ digits n)
        ≡ ok (record {
          transport = codes "grpc";
          host = host;
          port = n;
          address = host ++ b':' ∷ digits n;
          http_base = none;
        })
  unfolding parse_uri normalized is_plain
  parse_uri-bare accepts given pos fits good =
      let s = host ++ b':' ∷ digits n in
      rw
        (
          parse_uri,
          strip-Plain s bare-Plain,
          nonempty-append host b':' (digits n),
          normalized,
          has_scheme-Lacks s (Plain-Lacks b'/' refl s bare-Plain),
          urlparse-Plain accepts s bare-Plain good,
        )
        (checked_endpoint-bare pos fits (nonempty host given))
