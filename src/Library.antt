-- ===== src/Library.antt =====
-- What the Python code takes from outside this repository's Python sources: `json`, `hashlib`, zlib's
-- sizes, numpy's float32 conversion, and the compiled index module.
use hyper_vector.Common.{ℕ, ◌+◌, length, ◌≡◌, String, Bool, false, Option, List, str_eq}
use hyper_vector.Common.Result.{Result}
use hyper_vector.Json.{Json, Fields}

-- Texts and files are lists of numbers: code points, or bytes.
pub record Codec : Type 0 where
  -- `json.dumps` and `json.loads`; `none` is a JSONDecodeError.
  pub dumps : Json → List ℕ
  pub loads : List ℕ → Option Json
  -- "sha256:" + hashlib.sha256(...).hexdigest()
  pub sha256 : List ℕ → String
  -- The size of an entry once deflated.
  pub deflated : List ℕ → ℕ
  -- `np.asarray(value, dtype=np.float32)` where it is 1-D, as float32 words.
  pub as_vector : Json → Option (List ℕ)
  -- `.tolist()` of such an array.
  pub to_list : List ℕ → Json
  -- `str` of a value that is neither a text, a truth value, `None` nor a natural number.
  pub repr : Json → String
  -- `int` of the literal of a float, 0 where it is negative; nan and the infinities raise.
  pub truncate : String → Result ℕ

-- The digest is a text that is not empty.
pub record IsCodec (c : Codec) : Type 0 where
  pub sha256-named : (b : List ℕ) → str_eq (c.sha256 b) "" ≡ false

pub data Metric : Type 0 where
  inner_product l2 : Metric

-- The constructor calls of the index module.
pub data IndexSpec : Type 0 where
  flat_ip flat_l2 : ℕ → IndexSpec
  ivf_flat : ℕ → ℕ → Metric → IndexSpec
  ivf_lvq : ℕ → ℕ → ℕ → ℕ → Metric → IndexSpec
  ivf_pq : ℕ → ℕ → ℕ → ℕ → Metric → IndexSpec
  hnsw_flat : ℕ → ℕ → Metric → IndexSpec
  hnsw_lvq : ℕ → ℕ → ℕ → ℕ → Metric → IndexSpec
  hnsw_pq : ℕ → ℕ → ℕ → ℕ → Metric → IndexSpec

-- A label is `none` where the index returns a negative number. A distance is kept as its bits.
pub record Hypervec (Index : Type 0) : Type 0 where
  pub make : IndexSpec → Index
  pub is_trained : Index → Bool
  pub train : Index → List (List ℕ) → Index
  pub add : Index → List (List ℕ) → Index
  pub n_total : Index → ℕ
  pub dim : Index → ℕ
  pub search : Index → List (List ℕ) → ℕ → Fields → List (List (Option ℕ × ℕ))
  pub write_index : Index → List ℕ
  -- `none` where the file cannot be read as an index.
  pub read_index : List ℕ → Option Index

abbrev pub spec_dim : IndexSpec → ℕ
spec_dim (flat_ip dim) = dim
spec_dim (flat_l2 dim) = dim
spec_dim (ivf_flat dim nlist m) = dim
spec_dim (ivf_lvq dim nlist nlocal nbits m) = dim
spec_dim (ivf_pq dim nlist m_pq nbits m) = dim
spec_dim (hnsw_flat dim m_hnsw m) = dim
spec_dim (hnsw_lvq dim nlocal nbits m_hnsw m) = dim
spec_dim (hnsw_pq dim m_pq nbits m_hnsw m) = dim

-- The documented counts and dimensions of an index.
pub record IsHypervec {Index : Type 0} (h : Hypervec Index) : Type 0 where
  pub make-n_total : (spec : IndexSpec) → h.n_total (h.make spec) ≡ 0
  pub make-dim : (spec : IndexSpec) → h.dim (h.make spec) ≡ spec_dim spec
  pub train-n_total : (i : Index) (vs : List (List ℕ)) → h.n_total (h.train i vs) ≡ h.n_total i
  pub train-dim : (i : Index) (vs : List (List ℕ)) → h.dim (h.train i vs) ≡ h.dim i
  pub add-n_total :
      (i : Index) (vs : List (List ℕ)) → h.n_total (h.add i vs) ≡ h.n_total i + length vs
  pub add-dim : (i : Index) (vs : List (List ℕ)) → h.dim (h.add i vs) ≡ h.dim i
