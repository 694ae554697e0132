-- ===== src/Client/Url/Join/Collections.antt =====
-- Relative paths such as `collections/<name>/<action>`, joined and parsed.
use hyper_vector.Common.{
  ℕ, ◌≡◌, refl, ap, ◌∙◌, Bool, true, false, ◌==◌, List, [], ◌∷◌, ◌++◌, arith, if◌then◌else◌, leb,
  append-nil, false≢true, sym,
}
use hyper_vector.Common.Dict.{codes_eq}
use hyper_vector.Common.Result.{ok}
use hyper_vector.Names.{codes, is_name_char, is_alnum}
use hyper_vector.Bundle.Lines.{Text}
use hyper_vector.Client.Url.{starts_with, lstrip_controls}
use hyper_vector.Client.Url.{
  Url, is_empty, split_scheme, split_authority, urlparse, urlparse_or, lower_code, remove_breaks,
}
use hyper_vector.Client.Url.Plain.{
  Lacks, Plain, is_plain, Plain-Lacks, partition-Lacks, All-append, remove_breaks-Plain,
}
use hyper_vector.Client.Url.Join.{
  split_on, join_slashes, directory, drop_empty, tidy, resolve, join_path, url_join, url_unparse,
  reversed, or_slash, pop,
}
use hyper_vector.Client.Url.Join.Segments.{
  Segment, IsPath, Segment-IsPath, Segment-Lacks, IsPath-Lacks, is_path_char, remove_breaks-IsPath,
  split_netloc-rooted, split_rest-http,
}

split_on-Lacks : (c : ℕ) (s : Text) → Lacks c s → split_on c s ≡ s ∷ []
unfolding split_on
split_on-Lacks c [] h = refl
split_on-Lacks c (x ∷ s) h = rw (split_on-Lacks c s h.1, h.0) refl

split_on-at :
    (c : ℕ) (s r : Text) (l : Text) (ls : List Text)
    → Lacks c s
    → split_on c r ≡ l ∷ ls
    → split_on c (s ++ c ∷ r) ≡ s ∷ l ∷ ls
unfolding split_on
split_on-at c [] r l ls h e = rw e (ground arith)
split_on-at c (x ∷ s) r l ls h e = rw (split_on-at c s r l ls h.1 e, h.0) refl

codes_eq-dot : (s t : Text) → Segment s → codes_eq s (b'.' ∷ t) ≡ false
unfolding codes_eq is_name_char is_alnum
codes_eq-dot [] t h = refl
codes_eq-dot (c ∷ s) t h = ground arith

kept :
    (l : Text) (done : List Text)
    → codes_eq l (codes "..") ≡ false
    → codes_eq l (codes ".") ≡ false
    → (if codes_eq l (codes "..")
        then pop done
        else if codes_eq l (codes ".")
        then done
        else l ∷ done)
      ≡ l ∷ done
kept l done p h = rw (p, h) refl

resolve-step :
    (l m : Text) (ls done : List Text)
    → codes_eq l (codes "..") ≡ false
    → codes_eq l (codes ".") ≡ false
    → resolve (l ∷ m ∷ ls) done ≡ resolve (m ∷ ls) (l ∷ done)
unfolding resolve
resolve-step l m ls done p h = ap (resolve (m ∷ ls)) (kept l done p h)

resolve-last :
    (l : Text) (done : List Text)
    → codes_eq l (codes "..") ≡ false
    → codes_eq l (codes ".") ≡ false
    → resolve (l ∷ []) done ≡ l ∷ done
unfolding resolve
resolve-last l done p h = rw (resolve, p, h) refl

remove_breaks-append : (s t : Text) → remove_breaks (s ++ t) ≡ remove_breaks s ++ remove_breaks t
unfolding remove_breaks
remove_breaks-append [] t = refl
remove_breaks-append (c ∷ s) t = ground (arith, remove_breaks-append s t)

remove_breaks-rooted :
    (s r : Text) → Plain s → IsPath r → remove_breaks (s ++ b'/' ∷ r) ≡ s ++ b'/' ∷ r
unfolding remove_breaks
remove_breaks-rooted s r h k =
    remove_breaks-append s (b'/' ∷ r) ∙ rw (remove_breaks-Plain s h, remove_breaks-IsPath r k) refl

abbrev pub http_url : Text → Text → Url
http_url netloc path = record {
  scheme = codes "http";
  netloc = netloc;
  path = path;
  params = [];
  query = [];
  fragment = [];
}

pub urlparse-http :
    (accepts : Text → Bool) (s r : Text)
    → Plain s
    → IsPath r
    → accepts s ≡ true
    → urlparse accepts (codes "http://" ++ s ++ b'/' ∷ r) ≡ ok (http_url s (b'/' ∷ r))
unfolding urlparse urlparse_or lower_code is_plain is_path_char
urlparse-http accepts s r h k good =
    rw
      (
        remove_breaks-rooted s r h k,
        split_netloc-rooted s r h,
        partition-Lacks b'[' s (Plain-Lacks b'[' refl s h),
        partition-Lacks b']' s (Plain-Lacks b']' refl s h),
        good,
      )
      (ap ok (split_rest-http s (b'/' ∷ r) (refl, k)))

split_scheme-Lacks : (default s : Text) → Lacks b':' s → split_scheme default s ≡ (default, s)
unfolding split_scheme
split_scheme-Lacks default s h = rw (split_scheme, partition-Lacks b':' s h) refl

path_visible : (c : ℕ) → is_path_char c ≡ true → leb c 32 ≡ false
unfolding is_path_char is_name_char is_alnum
path_visible c h = ground arith

-- A path that begins with something else than a slash.
split_authority-relative :
    (p : Text) → starts_with (λ c. c == b'/') p ≡ false → split_authority p ≡ ([], p)
unfolding split_authority
split_authority-relative [] e = refl
split_authority-relative (x ∷ []) e = refl
split_authority-relative (x ∷ y ∷ r) e = rw e refl

lstrip_controls-IsPath : (p : Text) → IsPath p → lstrip_controls p ≡ p
unfolding lstrip_controls
lstrip_controls-IsPath [] h = refl
lstrip_controls-IsPath (x ∷ r) h = rw (path_visible x h.0) refl

url_unparse-http :
    (s r : Text) → url_unparse (http_url s (b'/' ∷ r)) ≡ codes "http://" ++ s ++ b'/' ∷ r
unfolding url_unparse
url_unparse-http s r =
    append-nil (codes "http://" ++ s ++ b'/' ∷ r ++ [] ++ [])
    ∙ append-nil (codes "http://" ++ s ++ b'/' ∷ r ++ [])
    ∙ append-nil (codes "http://" ++ s ++ b'/' ∷ r)

urlparse_or-relative :
    (accepts : Text → Bool) (p : Text)
    → IsPath p
    → starts_with (λ c. c == b'/') p ≡ false
    → accepts [] ≡ true
    → urlparse_or accepts (codes "http") p ≡ ok (http_url [] p)
unfolding urlparse_or is_path_char is_name_char is_alnum
urlparse_or-relative accepts p h e good =
    rw
      (
        lstrip_controls-IsPath p h,
        remove_breaks-IsPath p h,
        split_scheme-Lacks (codes "http") p (IsPath-Lacks b':' refl p h),
        split_authority-relative p e,
        good,
      )
      (ap ok (split_rest-http [] p h))

-- The segments of a path: letters, digits, dashes and underscores, and none empty but the last.
abbrev pub Segments : List Text → Type 0
Segments [] = Unit
Segments (l ∷ []) = Segment l
Segments (l ∷ m ∷ ls) = Segment l × (is_empty l ≡ false) × Segments (m ∷ ls)

split-join_slashes :
    (l : Text) (ls : List Text) → Segments (l ∷ ls) → split_on b'/' (join_slashes (l ∷ ls)) ≡ l ∷ ls
unfolding join_slashes is_name_char is_alnum
split-join_slashes l [] h = split_on-Lacks b'/' l (Segment-Lacks b'/' refl l h)
split-join_slashes l (m ∷ ls) h =
    split_on-at b'/' l _ _ _ (Segment-Lacks b'/' refl l h.0) (split-join_slashes m ls h.2)

pub join_slashes-IsPath :
    (l : Text) (ls : List Text) → Segments (l ∷ ls) → IsPath (join_slashes (l ∷ ls))
unfolding join_slashes is_path_char is_name_char
join_slashes-IsPath l [] h = Segment-IsPath l h
join_slashes-IsPath l (m ∷ ls) h =
    All-append (λ c. is_path_char c ≡ true) l _ (Segment-IsPath l h.0)
      (refl, join_slashes-IsPath m ls h.2)

drop_empty-Segments : (l : Text) (ls : List Text) → Segments (l ∷ ls) → drop_empty (l ∷ ls) ≡ l ∷ ls
unfolding drop_empty
drop_empty-Segments l [] h = refl
drop_empty-Segments l (m ∷ ls) h = rw (h.1, drop_empty-Segments m ls h.2) refl

resolve-Segments :
    (l : Text) (ls done : List Text)
    → Segments (l ∷ ls)
    → resolve (l ∷ ls) done ≡ reversed (l ∷ ls) done
resolve-Segments l [] done h = resolve-last l done (codes_eq-dot l _ h) (codes_eq-dot l _ h)
resolve-Segments l (m ∷ ls) done h =
    resolve-step l m ls done (codes_eq-dot l _ h.0) (codes_eq-dot l _ h.0)
    ∙ resolve-Segments m ls (l ∷ done) h.2

reversed-reversed : (xs ys zs : List Text) → reversed (reversed xs ys) zs ≡ reversed ys (xs ++ zs)
reversed-reversed [] ys zs = refl
reversed-reversed (x ∷ xs) ys zs = reversed-reversed xs (x ∷ ys) zs

-- A text before a slash, or at the end.
pub starts-join_slashes :
    (l : Text) (ls : List Text)
    → Segments (l ∷ ls)
    → is_empty l ≡ false
    → (starts_with (λ c. c == b'/') (join_slashes (l ∷ ls)) ≡ false)
      × (is_empty (join_slashes (l ∷ ls)) ≡ false)
unfolding join_slashes is_name_char is_alnum
starts-join_slashes [] ls h e = absurd (false≢true (sym e))
starts-join_slashes (x ∷ l) [] h e = ((Segment-Lacks b'/' refl (x ∷ l) h).0, refl)
starts-join_slashes (x ∷ l) (m ∷ ls) h e = ((Segment-Lacks b'/' refl (x ∷ l) h.0).0, refl)

module _ (l : Text) (ls : List Text) (h : Segments (l ∷ ls)) (given : is_empty l ≡ false) where
  abbrev relative : Text
  relative = join_slashes (l ∷ ls)

  resolve-relative : resolve (tidy ([] ∷ [] ∷ l ∷ ls)) [] ≡ reversed (l ∷ ls) ([] ∷ [])
  unfolding resolve tidy drop_empty codes_eq
  resolve-relative =
      ap (λ t. resolve ([] ∷ t) []) (drop_empty-Segments l ls h)
      ∙ resolve-step [] l ls [] refl refl
      ∙ resolve-Segments l ls ([] ∷ []) h

  join-relative : join_path (codes "/") relative ≡ b'/' ∷ relative
  unfolding join_path split_on directory join_slashes
  join-relative = rw (starts-join_slashes l ls h given).0 (
      ap
        (λ parts. or_slash (
          join_slashes
            (reversed (resolve (tidy (directory (split_on b'/' (codes "/")) ++ parts)) []) [])))
        (split-join_slashes l ls h)
      ∙ ap (λ r. or_slash (join_slashes (reversed r []))) resolve-relative
      ∙ ap (λ r. or_slash (join_slashes r)) (reversed-reversed (l ∷ ls) ([] ∷ []) [])
      ∙ ap (λ r. or_slash (join_slashes ([] ∷ r))) (append-nil (l ∷ ls)))

  pub url_join-relative :
      (accepts : Text → Bool) (s : Text)
      → Plain s
      → accepts s ≡ true
      → accepts [] ≡ true
      → url_join accepts (codes "http://" ++ s ++ codes "/") relative
        ≡ ok (codes "http://" ++ s ++ b'/' ∷ relative)
  unfolding url_join codes_eq
  url_join-relative accepts s p good none_good =
      rw
        (
          (starts-join_slashes l ls h given).1,
          urlparse-http accepts s [] p tt good,
          urlparse_or-relative accepts relative (join_slashes-IsPath l ls h)
              (starts-join_slashes l ls h given).0 none_good,
          (starts-join_slashes l ls h given).1,
          join-relative,
        )
        (ap ok (url_unparse-http s relative))
