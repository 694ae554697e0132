-- ===== src/Client/Url/Join.antt =====
-- `urljoin` of Python's `urllib.parse`, for the schemes of HTTP.
pub mod Segments
pub mod Collections
use hyper_vector.Common.{
  ℕ, Bool, true, false, not, ◌&&◌, ◌||◌, ◌==◌, Option, none, some, List, [], ◌∷◌, ◌++◌,
  if◌then◌else◌,
}
use hyper_vector.Common.Dict.{codes_eq}
use hyper_vector.Common.Result.{Result, ok, ◌>>=◌}
use hyper_vector.Names.{codes}
use hyper_vector.Bundle.Lines.{Text}
use hyper_vector.Client.Url.{Url, is_empty, starts_with, urlparse, urlparse_or}

-- s.split(c)
unfoldable pub split_on : ℕ → Text → List Text
split_on c [] = [] ∷ []
split_on c (x ∷ s) = elim (split_on c s) [
  | [] ↦ []
  | l ∷ ls ↦ if x == c then [] ∷ l ∷ ls else (x ∷ l) ∷ ls
]

-- "/".join(parts)
unfoldable pub join_slashes : List Text → Text
join_slashes [] = []
join_slashes (l ∷ []) = l
join_slashes (l ∷ m ∷ ls) = l ++ b'/' ∷ join_slashes (m ∷ ls)

-- The last item is dropped unless it is empty.
unfoldable pub directory : List Text → List Text
directory [] = []
directory (l ∷ []) = if is_empty l then l ∷ [] else []
directory (l ∷ m ∷ ls) = l ∷ directory (m ∷ ls)

-- Empty items are dropped, but for the last.
unfoldable pub drop_empty : List Text → List Text
drop_empty [] = []
drop_empty (l ∷ []) = l ∷ []
drop_empty (l ∷ m ∷ ls) = let rest = drop_empty (m ∷ ls) in if is_empty l then rest else l ∷ rest

-- segments[1:-1] = filter(None, segments[1:-1])
unfoldable pub tidy : List Text → List Text
unfolding drop_empty
tidy [] = []
tidy (l ∷ ls) = l ∷ drop_empty ls

abbrev is_parent : Text → Bool
is_parent s = codes_eq s (codes "..")

abbrev is_here : Text → Bool
is_here s = codes_eq s (codes ".")

-- list.pop() of the reversed list, which may be empty
abbrev pub pop : List Text → List Text
pop [] = []
pop (l ∷ ls) = ls

-- `done` is `resolved_path`, reversed. Behind a last `.` or `..` stands an empty item.
unfoldable pub resolve : List Text → List Text → List Text
unfolding codes_eq
resolve [] done = done
resolve (l ∷ ls) done =
    let next = if is_parent l then pop done else if is_here l then done else l ∷ done in
    elim ls [ [] ↦ if is_parent l || is_here l then [] ∷ next else next | m ∷ ms ↦ resolve ls next ]

abbrev pub reversed : List Text → List Text → List Text
reversed [] done = done
reversed (l ∷ ls) done = reversed ls (l ∷ done)

-- value or "/"
abbrev pub or_slash : Text → Text
or_slash [] = codes "/"
or_slash (c ∷ s) = c ∷ s

-- The path of a URL that is not empty, seen from `base`.
unfoldable pub join_path : Text → Text → Text
unfolding split_on join_slashes directory tidy resolve
join_path base path =
    let segments =
      if starts_with (λ c. c == b'/') path
      then split_on b'/' path
      else tidy (directory (split_on b'/' base) ++ split_on b'/' path) in
    or_slash (join_slashes (reversed (resolve segments []) []))

abbrev prefixed : Text → Text → Text
prefixed sign s = if is_empty s then [] else sign ++ s

abbrev rooted : Text → Text
rooted path = if is_empty path || starts_with (λ c. c == b'/') path then path else b'/' ∷ path

-- urlunparse, where there is an authority.
unfoldable pub url_unparse : Url → Text
url_unparse u =
    u.scheme
    ++ codes "://"
    ++ u.netloc
    ++ rooted u.path
    ++ prefixed (codes ";") u.params
    ++ prefixed (codes "?") u.query
    ++ prefixed (codes "#") u.fragment

-- `base` is a URL of HTTP with an authority.
unfoldable pub url_join : (Text → Bool) → Text → Text → Result Text
unfolding codes_eq join_path url_unparse urlparse urlparse_or
url_join accepts base url = if is_empty url then ok base else (do
  b ← urlparse accepts base
  u ← urlparse_or accepts b.scheme url
  ok (
      if not (codes_eq u.scheme b.scheme)
      then url
      else if not (is_empty u.netloc)
      then url_unparse u
      else if is_empty u.path && is_empty u.params
      then url_unparse (record b {
        query = if is_empty u.query then b.query else u.query;
        fragment = u.fragment;
      })
      else url_unparse (record u { netloc = b.netloc; path = join_path b.path u.path })))
