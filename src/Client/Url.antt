-- ===== src/Client/Url.antt =====
-- What pyhypervec/pyhypervec/uri.py uses of Python's `urllib.parse`. A URL is a list of code points;
-- `lower` is that of an ASCII text.
pub mod Plain
pub mod Join
use hyper_vector.Common.{
  ℕ, zero, suc, ◌+◌, ◌-◌, ◌*◌, Bool, true, false, not, ◌&&◌, ◌||◌, ◌==◌, leb, ltb, Option, none,
  some, List, [], ◌∷◌, ◌++◌, map, if◌then◌else◌,
}
use hyper_vector.Common.Dict.{codes_eq}
use hyper_vector.Common.Result.{Result, ok, err, value_error, refuse, ◌>>=◌, ◌>>◌}
use hyper_vector.Names.{codes}
use hyper_vector.Bundle.Lines.{Text}

-- s.partition(c): what is before the first `c`, and what is after it, if there is one.
unfoldable pub partition : ℕ → Text → Text × Option Text
partition c [] = ([], none)
partition c (x ∷ s) = let r = partition c s in if x == c then ([], some s) else (x ∷ r.0, r.1)

-- s.rpartition(c)[2] from `best` on, and s.rpartition(c)[0], if there is a `c`.
unfoldable pub after_last : ℕ → Text → Text → Text
after_last c [] best = best
after_last c (x ∷ s) best = after_last c s (if x == c then s else best)

unfoldable pub before_last : ℕ → Text → Option Text
before_last c [] = none
before_last c (x ∷ s) = elim (before_last c s) [
  | some u ↦ some (x ∷ u)
  | none ↦ if x == c then some [] else none
]

abbrev pub text_or_empty : Option Text → Text
text_or_empty none = []
text_or_empty (some s) = s

abbrev pub is_empty : Text → Bool
is_empty [] = true
is_empty (c ∷ s) = false

abbrev pub is_some : Option Text → Bool
is_some none = false
is_some (some s) = true

unfoldable pub lower_code : ℕ → ℕ
lower_code c = if leb b'A' c && leb c b'Z' then c + 32 else c

abbrev pub lower : Text → Text
lower s = map lower_code s

unfoldable pub is_letter : ℕ → Bool
is_letter c = (leb b'a' c && leb c b'z') || (leb b'A' c && leb c b'Z')

unfoldable pub is_digit : ℕ → Bool
is_digit c = leb b'0' c && leb c b'9'

abbrev pub all : (ℕ → Bool) → Text → Bool
all p [] = true
all p (c ∷ s) = p c && all p s

abbrev pub starts_with : (ℕ → Bool) → Text → Bool
starts_with p [] = false
starts_with p (c ∷ s) = p c

unfoldable pub is_scheme_char : ℕ → Bool
unfolding is_letter is_digit
is_scheme_char c = is_letter c || is_digit c || c == b'+' || c == b'-' || c == b'.'

-- url.lstrip(_WHATWG_C0_CONTROL_OR_SPACE)
unfoldable pub lstrip_controls : Text → Text
lstrip_controls [] = []
lstrip_controls (c ∷ s) = let rest = lstrip_controls s in if leb c 32 then rest else c ∷ s

-- Tabs, carriage returns and newlines are taken out.
unfoldable pub remove_breaks : Text → Text
remove_breaks [] = []
remove_breaks (c ∷ s) =
    let rest = remove_breaks s in if c == 9 || c == 10 || c == 13 then rest else c ∷ rest

-- The text up to the first `/`, `?` or `#`, and the rest.
unfoldable pub split_netloc : Text → Text × Text
split_netloc [] = ([], [])
split_netloc (c ∷ s) =
    let r = split_netloc s in
    if c == b'/' || c == b'?' || c == b'#' then ([], c ∷ s) else (c ∷ r.0, r.1)

-- The scheme in lower case, or the default, and the rest.
unfoldable pub split_scheme : Text → Text → Text × Text
unfolding partition is_letter is_scheme_char
split_scheme default url =
    let (scheme, after) = partition b':' url in
    elim after [
      | none ↦ (default, url)
      | some rest ↦
          if starts_with is_letter scheme && all is_scheme_char scheme
          then (lower scheme, rest)
          else (default, url)
    ]

-- The authority and the rest: url[:2] == '//'
unfoldable pub split_authority : Text → Text × Text
unfolding split_netloc
split_authority [] = ([], [])
split_authority (a ∷ []) = ([], a ∷ [])
split_authority (a ∷ b ∷ s) =
    let r = split_netloc s in if a == b'/' && b == b'/' then r else ([], a ∷ b ∷ s)

-- `_splitparams`, which looks behind the last slash.
unfoldable pub split_params : Text → Text × Text
unfolding partition after_last before_last
split_params path = elim (before_last b'/' path) [
  | none ↦ let (p, q) = partition b';' path in (p, text_or_empty q)
  | some u ↦
      let (p, q) = partition b';' (after_last b'/' path path) in (u ++ b'/' ∷ p, text_or_empty q)
]

pub record Url : Type 0 where
  pub scheme : Text
  pub netloc : Text
  pub path : Text
  pub params : Text
  pub query : Text
  pub fragment : Text

-- The schemes that have parameters, as far as the client takes them.
abbrev pub uses_params : Text → Bool
uses_params scheme =
    is_empty scheme || codes_eq scheme (codes "http") || codes_eq scheme (codes "https")

-- The parts of a URL with the given scheme and authority.
unfoldable pub split_rest : Text → Text → Text → Url
unfolding partition split_params codes_eq
split_rest scheme netloc rest =
    let (url, fragment) = partition b'#' rest in
    let (whole, query) = partition b'?' url in
    let (path, params) = if uses_params scheme then split_params whole else (whole, []) in
    record {
      scheme = scheme;
      netloc = netloc;
      path = path;
      params = params;
      query = text_or_empty query;
      fragment = text_or_empty fragment;
    }

-- `urlparse(uri, default)`. `accepts` is the test of an address in brackets and of the authority's
-- Unicode form.
unfoldable pub urlparse_or : (Text → Bool) → Text → Text → Result Url
unfolding lstrip_controls remove_breaks split_scheme split_authority split_rest partition
urlparse_or accepts default uri = do
  let (scheme, rest) = split_scheme default (remove_breaks (lstrip_controls uri))
  let (netloc, url) = split_authority rest
  let opens = is_some (partition b'[' netloc).1
  let closes = is_some (partition b']' netloc).1
  refuse ((opens && not closes) || (closes && not opens) || not (accepts netloc)) value_error
  ok (split_rest scheme netloc url)

unfoldable pub urlparse : (Text → Bool) → Text → Result Url
unfolding urlparse_or
urlparse accepts uri = urlparse_or accepts [] uri

-- The host and the port as they stand.
unfoldable pub split_host : Text → Text × Text
unfolding partition
split_host info = elim (partition b'[' info).1 [
  | some bracketed ↦
      let (host, rest) = partition b']' bracketed in
      (host, text_or_empty (partition b':' (text_or_empty rest)).1)
  | none ↦ let (host, port) = partition b':' info in (host, text_or_empty port)
]

-- `_hostinfo`
unfoldable pub hostinfo : Text → Text × Text
unfolding split_host after_last
hostinfo netloc = split_host (after_last b'@' netloc netloc)

-- `parsed.hostname or ""`; the zone of an address keeps its case.
unfoldable pub hostname : Text → Text
unfolding hostinfo partition lower_code
hostname netloc =
    let (host, zone) = partition b'%' (hostinfo netloc).0 in
    lower host ++ (elim zone [ none ↦ [] | some z ↦ b'%' ∷ z ])

-- parsed.username or parsed.password
unfoldable pub has_credentials : Text → Bool
unfolding before_last partition
has_credentials netloc = elim (before_last b'@' netloc) [
  | none ↦ false
  | some userinfo ↦
      let (username, password) = partition b':' userinfo in
      not (is_empty username) || not (is_empty (text_or_empty password))
]

-- int of a text of digits, behind those of `n`.
unfoldable pub int_from : ℕ → Text → ℕ
int_from n [] = n
int_from n (d ∷ s) = int_from (n * 10 + (d - b'0')) s

unfoldable pub port_number : Text → Result (Option ℕ)
unfolding int_from is_digit
port_number [] = ok none
port_number (d ∷ s) =
    if all is_digit (d ∷ s) && leb (int_from 0 (d ∷ s)) 65535
    then ok (some (int_from 0 (d ∷ s)))
    else err value_error

-- parsed.port
unfoldable pub port : Text → Result (Option ℕ)
unfolding hostinfo port_number
port netloc = port_number (hostinfo netloc).1
