-- ===== src/Engine/IndexConfig/Sound.antt =====
-- What an index is constructed with (src/python/hypervec_server_engine.py).
use hyper_vector.Common.{
  ℕ, ◌%◌, ◌<◌, ◌≡◌, ◌==◌, String, false, Option, some, arith, refl, ◌⊎◌, inl, inr, Option-cases,
}
use hyper_vector.Common.Result.{
  Result, ok, err, Error, value_error, >>=-eq-ok, refuse-eq-ok, ok_inj,
}
use hyper_vector.Json.{Json, obj, Fields, get, truthy, is_empty}
use hyper_vector.Library.{
  Metric, inner_product, l2, IndexSpec, flat_ip, flat_l2, ivf_flat, ivf_lvq, ivf_pq, hnsw_flat,
  hnsw_lvq, hnsw_pq,
}
use hyper_vector.Engine.IndexConfig.{
  flat, ivf, ivf_lvqs, ivf_pqs, hnsw, hnsw_lvqs, hnsw_pqs, upper_or, metric_text, metric, py_int,
  to_positive, positive_int, validate_pq_dim, has_deprecated, Kind, kind, spec_of, params_of,
  index_spec,
}

-- What a constructor call may pass: the parameters are positive, and a product quantizer divides the
-- dimension.
abbrev pub IsSound : ℕ → IndexSpec → Type 0
IsSound d (flat_ip dim) = dim ≡ d
IsSound d (flat_l2 dim) = dim ≡ d
IsSound d (ivf_flat dim nlist m) = (dim ≡ d) × (0 < nlist)
IsSound d (ivf_lvq dim nlist nlocal nbits m) = (dim ≡ d) × (0 < nlist) × (0 < nlocal) × (0 < nbits)
IsSound d (ivf_pq dim nlist m_pq nbits m) =
    (dim ≡ d) × (0 < nlist) × (0 < m_pq) × (0 < nbits) × (dim % m_pq ≡ 0)
IsSound d (hnsw_flat dim m_hnsw m) = (dim ≡ d) × (0 < m_hnsw)
IsSound d (hnsw_lvq dim nlocal nbits m_hnsw m) =
    (dim ≡ d) × (0 < nlocal) × (0 < nbits) × (0 < m_hnsw)
IsSound d (hnsw_pq dim m_pq nbits m_hnsw m) =
    (dim ≡ d) × (0 < m_pq) × (0 < nbits) × (0 < m_hnsw) × (dim % m_pq ≡ 0)

current_params :
    (o : Option Json) (params given : Fields)
    → params_of o ≡ ok params
    → o ≡ some (obj given)
    → is_empty given ≡ false
    → has_deprecated params ≡ false
    → has_deprecated given ≡ false
unfolding truthy
current_params o params given p g n c = ground arith

module _ (truncate : String → Result ℕ) where
  to_positive-pos : (v : Json) (n : ℕ) → to_positive truncate v ≡ ok n → 0 < n
  unfolding to_positive
  to_positive-pos v n h =
      let (k, _, h₁) = >>=-eq-ok (py_int truncate v) _ h in
      let (given, h₂) = refuse-eq-ok (k == 0) value_error _ h₁ in
      let same = ok_inj h₂ in ground (arith, same)

  positive_int-pos :
      (params : Fields) (name : String) (default n : ℕ)
      → positive_int truncate params name default ≡ ok n
      → 0 < default
      → 0 < n
  unfolding positive_int
  positive_int-pos params name default n h d = elim (Option-cases (get params name)) [
    | inl e ↦ ground arith
    | inr (v, e) ↦ to_positive-pos v n (ground arith)
  ]

  -- A parameter that is read is positive, or the call has failed.
  record Reads (params : Fields) (name : String) (default : ℕ) : Type 0 where
    outcome :
        ((e : Error) × (positive_int truncate params name default ≡ err e))
        ⊎ ((n : ℕ) × (positive_int truncate params name default ≡ ok n) × (0 < n))

  reads : (params : Fields) (name : String) (default : ℕ) → 0 < default → Reads params name default
  reads params name default d = record {
    outcome = cases (positive_int truncate params name default) refl;
  }
    where
      cases :
          (r : Result ℕ)
          → positive_int truncate params name default ≡ r
          → ((e : Error) × (positive_int truncate params name default ≡ err e))
            ⊎ ((n : ℕ) × (positive_int truncate params name default ≡ ok n) × (0 < n))
      cases (ok n) e = inr (n, e, positive_int-pos params name default n e d)
      cases (err x) e = inl (x, e)

  module _ (params : Fields) where
    nlist_read : Reads params "nlist" 1024
    nlist_read = reads params "nlist" 1024 (omega arith)

    nlocal_read : Reads params "nlocal" 16
    nlocal_read = reads params "nlocal" 16 (omega arith)

    nbits_read : Reads params "nbits" 8
    nbits_read = reads params "nbits" 8 (omega arith)

    m_pq_read : Reads params "m_pq" 8
    m_pq_read = reads params "m_pq" 8 (omega arith)

    m_hnsw_read : Reads params "m_hnsw" 32
    m_hnsw_read = reads params "m_hnsw" 32 (omega arith)

  spec_of-IsSound :
      (k : Kind) (m : Metric) (dim : ℕ) (params : Fields) (spec : IndexSpec)
      → spec_of truncate k m dim params ≡ ok spec
      → IsSound dim spec
  unfolding spec_of validate_pq_dim
  spec_of-IsSound flat inner_product dim params spec h = ground arith
  spec_of-IsSound flat l2 dim params spec h = ground arith
  spec_of-IsSound ivf m dim params spec h = ground (arith, nlist_read params)
  spec_of-IsSound ivf_lvqs m dim params spec h =
      ground (arith, nlist_read params, nlocal_read params, nbits_read params)
  spec_of-IsSound ivf_pqs m dim params spec h =
      ground (arith, nlist_read params, m_pq_read params, nbits_read params)
  spec_of-IsSound hnsw m dim params spec h = ground (arith, m_hnsw_read params)
  spec_of-IsSound hnsw_lvqs m dim params spec h =
      ground (arith, nlocal_read params, nbits_read params, m_hnsw_read params)
  spec_of-IsSound hnsw_pqs m dim params spec h =
      ground (arith, m_pq_read params, nbits_read params, m_hnsw_read params)

  -- Whatever the configuration says, and whatever `int` makes of floats in it, an index is only constructed at the collection's dimension, with
  -- positive parameters and, for a product quantizer, a number of parts that divides the dimension; it
  -- is never constructed where a deprecated parameter name is given.
  pub index_spec-IsSound :
      (repr : Json → String) (dim : ℕ) (config : Fields) (spec : IndexSpec)
      → index_spec repr truncate dim config ≡ ok spec
      → IsSound dim spec
        × ((params : Fields)
            → get config "params" ≡ some (obj params)
            → is_empty params ≡ false
            → has_deprecated params ≡ false)
  unfolding index_spec
  index_spec-IsSound repr dim config spec h =
      let (m, e, h₁) = >>=-eq-ok (metric (metric_text repr (get config "metric_type"))) _ h in
      let (params, p, h₂) = >>=-eq-ok (params_of (get config "params")) _ h₁ in
      let (current, h₃) = refuse-eq-ok (has_deprecated params) value_error _ h₂ in
      let (k, _, h₄) = >>=-eq-ok (kind (upper_or repr (get config "index_type") "HNSWFlat")) _ h₃ in
      (
        spec_of-IsSound k m dim params spec h₄,
        λ given g n. current_params (get config "params") params given p g n current,
      )
