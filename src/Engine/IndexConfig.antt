-- ===== src/Engine/IndexConfig.antt =====
-- The choice of an index (src/python/hypervec_server_engine.py: `_index_config`, `_metric`,
-- `_make_index`).
pub mod Sound
use hyper_vector.Common.{
  ℕ, ◌+◌, ◌*◌, ◌-◌, ◌%◌, ◌<◌, ◌&&◌, leb, ◌≡◌, String, Bool, true, false, not, ◌||◌, Option, none,
  some, List, [], ◌∷◌, ◌==◌, if◌then◌else◌, arith, refl, ◌⊎◌, inl, inr, Option-cases,
}
use hyper_vector.Common.Dict.{codes_eq}
use hyper_vector.Common.Result.{
  Result, ok, err, Error, value_error, type_error, refuse, or_raise, ◌>>=◌, ◌>>◌, >>=-eq-ok,
  refuse-eq-ok,
}
use hyper_vector.Json.{
  Json, null, bool, int, neg, real, str, arr, obj, nil, cons, Fields, end, field, get, truthy,
  is_empty,
}
use hyper_vector.Json.Text.{py_str, to_upper}
use hyper_vector.Library.{
  Metric, inner_product, l2, IndexSpec, flat_ip, flat_l2, ivf_flat, ivf_lvq, ivf_pq, hnsw_flat,
  hnsw_lvq, hnsw_pq,
}
use hyper_vector.Meta.{CollectionMeta}
use hyper_vector.Names.{codes}
use hyper_vector.Bundle.Lines.{Text, strip}

-- (meta.index_params or {}).get("indexes") or []: the first entry, or the default.
unfoldable pub index_config : CollectionMeta → Fields
unfolding get
index_config meta = elim (get meta.index_params "indexes") [
  | some v ↦ elim v [
    | arr xs ↦ elim xs [ cons w ws ↦ elim w [ obj d ↦ d | _ ↦ default ] | nil ↦ default ]
    | _ ↦ default
  ]
  | none ↦ default
]
  where
    default : Fields
    default = field "field_name" (str meta.vector_field) (
        field "metric_type" (str "L2")
          (field "index_type" (str "HNSWFlat") (field "params" (obj end) end)))

-- upper(text) in {...}
unfoldable pub one_of : List ℕ → List String → Bool
one_of s [] = false
one_of s (t ∷ ts) = codes_eq s (codes t) || one_of s ts

-- `value or default`, then upper case.
abbrev upper_or : (Json → String) → Option Json → String → List ℕ
upper_or repr none default = to_upper (codes default)
upper_or repr (some v) default = to_upper (codes (if truthy v then py_str repr v else default))

-- str(str(index_config.get("metric_type", "L2")) or "L2").upper()
abbrev metric_text : (Json → String) → Option Json → List ℕ
metric_text repr none = to_upper (codes "L2")
metric_text repr (some v) =
    let s = py_str repr v in to_upper (codes (if truthy (str s) then s else "L2"))

unfoldable pub metric : List ℕ → Result Metric
unfolding one_of codes_eq
metric s =
    if one_of s ("IP" ∷ "INNER_PRODUCT" ∷ "COSINE" ∷ [])
    then ok inner_product
    else if one_of s ("L2" ∷ "EUCLIDEAN" ∷ [])
    then ok l2
    else err value_error

-- Digits, each of them after another or after one underscore, behind those of `n`.
unfoldable pub read_digits : ℕ → Bool → Text → Option ℕ
read_digits n after_digit [] = if after_digit then some n else none
read_digits n after_digit (c ∷ s) =
    let more = read_digits (n * 10 + (c - b'0')) true s in
    let gap = read_digits n false s in
    if leb b'0' c && leb c b'9' then more else if c == b'_' && after_digit then gap else none

-- int(text) of an ASCII text, 0 where it is negative.
unfoldable pub int_of_text : Text → Option ℕ
unfolding read_digits
int_of_text [] = none
int_of_text (c ∷ s) =
    let digits = read_digits 0 false (c ∷ s) in
    let unsigned = read_digits 0 false s in
    if c == b'+'
    then unsigned
    else if c == b'-'
    then (elim unsigned [ none ↦ none | some n ↦ some 0 ])
    else digits

-- int(value), 0 where it is negative. `truncate` does it for the literals of floats.
unfoldable pub py_int : (String → Result ℕ) → Json → Result ℕ
unfolding int_of_text strip
py_int truncate (int n) = ok n
py_int truncate (neg n) = ok 0
py_int truncate (bool true) = ok 1
py_int truncate (bool false) = ok 0
py_int truncate (str s) = or_raise value_error (int_of_text (strip (codes s)))
py_int truncate (real s) = truncate s
py_int truncate null = err type_error
py_int truncate (arr xs) = err type_error
py_int truncate (obj d) = err type_error

-- int(value) > 0
unfoldable pub to_positive : (String → Result ℕ) → Json → Result ℕ
unfolding py_int
to_positive truncate v = do n ← py_int truncate v; refuse (n == 0) value_error; ok n

-- positive_int(name, default)
unfoldable pub positive_int : (String → Result ℕ) → Fields → String → ℕ → Result ℕ
unfolding to_positive get
positive_int truncate params name default = elim (get params name) [
  | none ↦ ok default
  | some v ↦ to_positive truncate v
]

-- validate_pq_dim(m_pq)
unfoldable pub validate_pq_dim : ℕ → ℕ → Result (Unit {0})
validate_pq_dim dim m_pq = refuse (not (dim % m_pq == 0)) value_error

abbrev has : Fields → String → Bool
has d k = elim (get d k) [ none ↦ false | some v ↦ true ]

-- set(params) & {"M", "m", "M_hnsw", "M_pq"}
unfoldable pub has_deprecated : Fields → Bool
unfolding get
has_deprecated params = has params "M" || has params "m" || has params "M_hnsw" || has params "M_pq"

-- The families of index types, by their accepted spellings.
pub data Kind : Type 0 where
  flat ivf ivf_lvqs ivf_pqs hnsw hnsw_lvqs hnsw_pqs : Kind

unfoldable pub kind : List ℕ → Result Kind
unfolding one_of codes_eq
kind s =
    if one_of s ("FLAT" ∷ "INDEXFLAT" ∷ [])
    then ok flat
    else if one_of s ("IVF" ∷ "IVFFLAT" ∷ "INDEXIVFFLAT" ∷ [])
    then ok ivf
    else if one_of s ("IVFLVQ" ∷ "INDEXIVFLVQ" ∷ [])
    then ok ivf_lvqs
    else if one_of s ("IVFPQ" ∷ "INDEXIVFPQ" ∷ [])
    then ok ivf_pqs
    else if one_of s ("HNSW" ∷ "HNSWFLAT" ∷ "INDEXHNSWFLAT" ∷ "AUTOINDEX" ∷ [])
    then ok hnsw
    else if one_of s ("HNSWLVQ" ∷ "INDEXHNSWLVQ" ∷ [])
    then ok hnsw_lvqs
    else if one_of s ("HNSWPQ" ∷ "INDEXHNSWPQ" ∷ [])
    then ok hnsw_pqs
    else err value_error

abbrev flat_of : Metric → ℕ → IndexSpec
flat_of inner_product dim = flat_ip dim
flat_of l2 dim = flat_l2 dim

unfoldable pub spec_of : (String → Result ℕ) → Kind → Metric → ℕ → Fields → Result IndexSpec
unfolding positive_int validate_pq_dim
spec_of truncate flat m dim params = ok (flat_of m dim)
spec_of truncate ivf m dim params = do
  nlist ← positive_int truncate params "nlist" 1024
  ok (ivf_flat dim nlist m)
spec_of truncate ivf_lvqs m dim params = do
  nlist ← positive_int truncate params "nlist" 1024
  nlocal ← positive_int truncate params "nlocal" 16
  nbits ← positive_int truncate params "nbits" 8
  ok (ivf_lvq dim nlist nlocal nbits m)
spec_of truncate ivf_pqs m dim params = do
  nlist ← positive_int truncate params "nlist" 1024
  m_pq ← positive_int truncate params "m_pq" 8
  nbits ← positive_int truncate params "nbits" 8
  validate_pq_dim dim m_pq
  ok (ivf_pq dim nlist m_pq nbits m)
spec_of truncate hnsw m dim params = do
  m_hnsw ← positive_int truncate params "m_hnsw" 32
  ok (hnsw_flat dim m_hnsw m)
spec_of truncate hnsw_lvqs m dim params = do
  nlocal ← positive_int truncate params "nlocal" 16
  nbits ← positive_int truncate params "nbits" 8
  m_hnsw ← positive_int truncate params "m_hnsw" 32
  ok (hnsw_lvq dim nlocal nbits m_hnsw m)
spec_of truncate hnsw_pqs m dim params = do
  m_pq ← positive_int truncate params "m_pq" 8
  nbits ← positive_int truncate params "nbits" 8
  m_hnsw ← positive_int truncate params "m_hnsw" 32
  validate_pq_dim dim m_pq
  ok (hnsw_pq dim m_pq nbits m_hnsw m)

-- dict(index_config.get("params") or {})
abbrev params_of : Option Json → Result Fields
params_of none = ok end
params_of (some v) = if truthy v then elim v [ obj d ↦ ok d | _ ↦ err type_error ] else ok end

-- `_make_index`, up to the constructor call.
unfoldable pub index_spec : (Json → String) → (String → Result ℕ) → ℕ → Fields → Result IndexSpec
unfolding metric kind spec_of has_deprecated get truthy py_str to_upper
index_spec repr truncate dim config = do
  m ← metric (metric_text repr (get config "metric_type"))
  params ← params_of (get config "params")
  refuse (has_deprecated params) value_error
  k ← kind (upper_or repr (get config "index_type") "HNSWFlat")
  spec_of truncate k m dim params
