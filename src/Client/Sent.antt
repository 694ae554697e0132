-- ===== src/Client/Sent.antt =====
-- The URLs that the requests of the client (pyhypervec/pyhypervec/client.py) are sent to.
use Prim.Native.Char.{code}
use Prim.Native.String
use Prim.Native.String.{String}
use text.Mathlib.TextLemmas.{nil-append, cons-append}
use hyper_vector.Common.{
  ℕ, ◌≡◌, ◌≢◌, refl, ap, ◌∙◌, sym, Bool, true, false, List, [], ◌∷◌, ◌++◌, str_eq, arith,
  false≢true,
}
use hyper_vector.Common.Result.{ok}
use hyper_vector.Names.{codes, is_name_char, is_alnum}
use hyper_vector.Bundle.Lines.{Text}
use hyper_vector.Engine.Search.{Numbers}
use hyper_vector.Http.Router.{is_rows}
use hyper_vector.Http.Router.Paths.{HasNoSlash}
use hyper_vector.Client.Calls.{
  Call, health, list_collections, describe_collections, has_collection, describe_collection,
  drop_collection, flush, load_collection, close_collection, get_version, download_index,
  download_collection_bundle, create_collection, insert, search, sync_check, upload_index,
  upload_collection_bundle, purge_collection_data,
}
use hyper_vector.Client.Rest.{request_of, path_of}
use hyper_vector.Client.Url.{is_empty, all}
use hyper_vector.Client.Url.Plain.{Plain}
use hyper_vector.Client.Url.Join.{join_slashes}
use hyper_vector.Client.Url.Join.Segments.{Segment}
use hyper_vector.Client.Url.Join.Collections.{Segments}
use hyper_vector.Client.Target.{sent_path}
use hyper_vector.Client.Target.Laws.{sent_path-Segments}

-- A name of letters, digits, dashes and underscores.
abbrev pub IsSegment : String → Type 0
IsSegment name = Segment (codes name) × (str_eq name "" ≡ false)

-- A call whose collection has such a name, and whose queries are lists of numbers.
abbrev pub IsRoutable : Numbers → Call → Type 0
IsRoutable numbers health = Unit
IsRoutable numbers list_collections = Unit
IsRoutable numbers describe_collections = Unit
IsRoutable numbers (has_collection name) = IsSegment name
IsRoutable numbers (describe_collection name) = IsSegment name
IsRoutable numbers (drop_collection name) = IsSegment name
IsRoutable numbers (flush name) = IsSegment name
IsRoutable numbers (load_collection name) = IsSegment name
IsRoutable numbers (close_collection name) = IsSegment name
IsRoutable numbers (get_version name) = IsSegment name
IsRoutable numbers (download_index name) = IsSegment name
IsRoutable numbers (download_collection_bundle name) = IsSegment name
IsRoutable numbers (create_collection name schema index_params) = IsSegment name
IsRoutable numbers (insert name batch) = IsSegment name
IsRoutable numbers (search name q) = IsSegment name × (is_rows numbers.is_number q.queries ≡ true)
IsRoutable numbers (sync_check name version checksum) = IsSegment name
IsRoutable numbers (upload_index name bytes version checksum) = IsSegment name
IsRoutable numbers (upload_collection_bundle name file checksum mode) = IsSegment name
IsRoutable numbers (purge_collection_data name require_exported) = IsSegment name

name_no_slash : (c : ℕ) → is_name_char c ≡ true → c ≢ b'/'
unfolding is_name_char is_alnum
name_no_slash c h = ground arith

pub Segment-HasNoSlash : (s : String) → Segment (codes s) → HasNoSlash s
Segment-HasNoSlash String.[] h = tt
Segment-HasNoSlash (String.◌∷◌ c s) h = (name_no_slash (code c) h.0, Segment-HasNoSlash s h.1)

codes-append : (s t : String) → codes (String.◌++◌ s t) ≡ codes s ++ codes t
codes-append String.[] t = ap codes (nil-append t)
codes-append (String.◌∷◌ c s) t =
    ap codes (cons-append c s t) ∙ ap (λ l. code c ∷ l) (codes-append s t)

codes-nonempty : (s : String) → str_eq s "" ≡ false → is_empty (codes s) ≡ false
codes-nonempty String.[] h = absurd (false≢true (sym h))
codes-nonempty (String.◌∷◌ c s) h = refl

all-Segment : (s : Text) → all is_name_char s ≡ true → Segment s
all-Segment [] h = tt
all-Segment (c ∷ s) h = (ground (arith, h), all-Segment s (ground (arith, h)))

codes-path_of :
    (name action : String)
    → codes (path_of name action)
      ≡ b'/' ∷ join_slashes (codes "collections" ∷ codes name ∷ codes action ∷ [])
unfolding path_of join_slashes
codes-path_of name action =
    codes-append "/collections/" (String.◌++◌ name (String.◌++◌ "/" action))
    ∙ ap (λ l. codes "/collections/" ++ l)
        (codes-append name (String.◌++◌ "/" action)
          ∙ ap (λ l. codes name ++ l) (codes-append "/" action))

codes-prefix :
    (name : String)
    → codes (String.◌++◌ "/collections/" name)
      ≡ b'/' ∷ join_slashes (codes "collections" ∷ codes name ∷ [])
unfolding join_slashes
codes-prefix name = codes-append "/collections/" name

module _ (accepts : Text → Bool) (s : Text) (plain : Plain s) (good : accepts s ≡ true)
    (none_good : accepts [] ≡ true) where
  abbrev uri : Text
  uri = codes "http://" ++ s ++ codes "/"

  sent-Segments :
      (path : String) (l : Text) (ls : List Text)
      → codes path ≡ b'/' ∷ join_slashes (l ∷ ls)
      → Segments (l ∷ ls)
      → is_empty l ≡ false
      → sent_path accepts uri (codes path) ≡ ok (codes path, [])
  sent-Segments path l ls e h given =
      rw e (sent_path-Segments accepts s l ls plain good none_good h given)

  collections-Segment : Segment (codes "collections")
  unfolding is_name_char is_alnum
  collections-Segment = all-Segment (codes "collections") refl

  sent-path_of :
      (name action : String)
      → IsSegment name
      → all is_name_char (codes action) ≡ true
      → sent_path accepts uri (codes (path_of name action)) ≡ ok (codes (path_of name action), [])
  sent-path_of name action h a =
      sent-Segments (path_of name action) (codes "collections") (codes name ∷ codes action ∷ [])
        (codes-path_of name action)
        (collections-Segment, refl, (h.0, codes-nonempty name h.1, all-Segment (codes action) a))
        refl

  pub sent_path-request_of :
      (numbers : Numbers) (size : ℕ) (call : Call)
      → IsRoutable numbers call
      → sent_path accepts uri (codes (request_of size call).path)
        ≡ ok (codes (request_of size call).path, [])
  unfolding request_of join_slashes is_name_char is_alnum
  sent_path-request_of numbers size health h =
      sent-Segments "/health" (codes "health") [] refl (all-Segment (codes "health") refl) refl
  sent_path-request_of numbers size list_collections h =
      sent-Segments "/collections" (codes "collections") [] refl collections-Segment refl
  sent_path-request_of numbers size describe_collections h =
      sent-Segments "/collections/describe" (codes "collections") (codes "describe" ∷ []) refl
        (collections-Segment, refl, all-Segment (codes "describe") refl) refl
  sent_path-request_of numbers size (drop_collection name) h =
      sent-Segments (String.◌++◌ "/collections/" name) (codes "collections") (codes name ∷ [])
        (codes-prefix name) (collections-Segment, refl, h.0) refl
  sent_path-request_of numbers size (has_collection name) h = sent-path_of name "exists" h refl
  sent_path-request_of numbers size (describe_collection name) h =
      sent-path_of name "describe" h refl
  sent_path-request_of numbers size (flush name) h = sent-path_of name "flush" h refl
  sent_path-request_of numbers size (load_collection name) h = sent-path_of name "load" h refl
  sent_path-request_of numbers size (close_collection name) h = sent-path_of name "close" h refl
  sent_path-request_of numbers size (get_version name) h = sent-path_of name "version" h refl
  sent_path-request_of numbers size (download_index name) h = sent-path_of name "index" h refl
  sent_path-request_of numbers size (download_collection_bundle name) h =
      sent-path_of name "bundle" h refl
  sent_path-request_of numbers size (create_collection name schema index_params) h =
      sent-path_of name "create" h refl
  sent_path-request_of numbers size (insert name batch) h = sent-path_of name "insert" h refl
  sent_path-request_of numbers size (search name q) h = sent-path_of name "search" h.0 refl
  sent_path-request_of numbers size (sync_check name version checksum) h =
      sent-path_of name "sync-check" h refl
  sent_path-request_of numbers size (upload_index name bytes version checksum) h =
      sent-path_of name "index" h refl
  sent_path-request_of numbers size (upload_collection_bundle name file checksum mode) h =
      sent-path_of name "bundle" h refl
  sent_path-request_of numbers size (purge_collection_data name require_exported) h =
      sent-path_of name "purge-data" h refl
