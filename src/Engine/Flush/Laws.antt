-- ===== src/Engine/Flush/Laws.antt =====
-- What a flush leaves, and that the checks of an export then pass
-- (src/python/hypervec_server_engine.py).
use hyper_vector.Common.{
  ℕ, ◌+◌, ◌≡◌, refl, ap, sym, ◌∙◌, Option, none, some, List, arith, length, Bool-cases, inl, inr,
}
use hyper_vector.Common.Result.{Result, ok, err, length-traverse}
use hyper_vector.Library.{
  IsHypervec, spec_dim, IndexSpec, flat_ip, flat_l2, ivf_flat, ivf_lvq, ivf_pq, hnsw_flat, hnsw_lvq,
  hnsw_pq,
}
use hyper_vector.Meta.{CollectionMeta, ready}
use hyper_vector.Scalar.{Doc, Vector, Tables, get_vectors, decode_vector, count}
use hyper_vector.Engine.State.{
  Collection, Host, meta_or_raise, meta_update, meta_bump, refresh_scalar_cache, checksum_of,
}
use hyper_vector.Engine.IndexConfig.{index_config, index_spec}
use hyper_vector.Engine.IndexConfig.Sound.{IsSound, index_spec-IsSound}
use hyper_vector.Engine.Flush.{Flushed, flush, fill, write_index}
use hyper_vector.Engine.Export.{check_export, live_index, is_unexportable}

length-get_vectors :
    (dim : ℕ) (t : Tables) (vectors : List Vector)
    → get_vectors dim t ≡ ok vectors
    → length vectors ≡ count t
unfolding get_vectors count
length-get_vectors dim t vectors h = by_live t.live refl
  where
    by_live : (o : Option (List Doc)) → t.live ≡ o → length vectors ≡ count t
    by_live none e = absurd (ground arith)
    by_live (some rows) e = ground (
      arith,
      length-traverse (λ (a : Doc). decode_vector dim a.vector) rows vectors (ground arith),
    )

module _ {Index : Type 0} (host : Host Index) (now : ℕ) where
  open host use {codec, hypervec}

  -- The collection `t` after a flush of `s`, whose entry was `m`.
  pub record IsFlushed (s : Collection Index) (m : CollectionMeta) (t : Collection Index)
      : Type 0 where
    pub dim : ℕ
    pub vectors : List Vector
    pub spec : IndexSpec
    pub entry : CollectionMeta
    pub fetched : get_vectors dim s.tables ≡ ok vectors
    pub chosen : index_spec codec.repr codec.truncate dim (index_config m) ≡ ok spec
    pub stored : t.meta ≡ some entry
    pub dimension : m.dim ≡ some dim
    pub same_dimension : entry.dim ≡ some dim
    pub covered : entry.index_version ≡ m.data_version
    pub data_version : entry.data_version ≡ m.data_version
    pub state : entry.data_state ≡ m.data_state
    pub counted : entry.total ≡ count t.tables
    pub rows : t.tables ≡ s.tables
    pub loaded : t.loaded ≡ some (fill host (hypervec.make spec) vectors)
    pub file : t.dir.index ≡ some (hypervec.write_index (fill host (hypervec.make spec) vectors))
    pub digest : entry.index_checksum ≡ checksum_of codec t.dir.index

  -- A flush that returns has built a new index of the collection's vectors, with the parameters that its
  -- configuration asks for. The index is in memory and in the file; the entry has its digest, covers the
  -- version of the data, and its total is the number of rows, which are the same.
  pub flush-IsFlushed :
      (s : Collection Index) (m : CollectionMeta) (answer : Flushed)
      → s.meta ≡ some m
      → (flush host now s).0 ≡ ok answer
      → IsFlushed s m (flush host now s).1
  unfolding flush meta_or_raise meta_bump meta_update write_index refresh_scalar_cache
  flush-IsFlushed s m answer stored done = by_dim m.dim refl
    where
      by_spec :
          (d : ℕ) (vectors : List Vector) (r : Result IndexSpec)
          → m.dim ≡ some d
          → get_vectors d s.tables ≡ ok vectors
          → index_spec codec.repr codec.truncate d (index_config m) ≡ r
          → IsFlushed s m (flush host now s).1
      by_spec d vectors (err x) e f g = absurd (ground arith)
      by_spec d vectors (ok spec) e f g =
          let index = fill host (hypervec.make spec) vectors in
          let counted : length vectors ≡ count s.tables = length-get_vectors d s.tables vectors f in
          let left : (flush host now s).1.tables ≡ s.tables = ground arith in
          let file : (flush host now s).1.dir.index ≡ some (hypervec.write_index index) =
            ground arith in
          record {
            dim = d;
            vectors = vectors;
            spec = spec;
            entry = record m {
              version = m.version + 1;
              dim = some d;
              total = length vectors;
              flushed_at = some now;
              index_version = m.data_version;
              index_checksum = some (codec.sha256 (hypervec.write_index index));
              index_size_bytes = some (length (hypervec.write_index index));
              updated_at = now;
            };
            fetched = f;
            chosen = g;
            stored = ground arith;
            dimension = e;
            same_dimension = refl;
            covered = refl;
            data_version = refl;
            state = refl;
            counted = counted ∙ ap count (sym left);
            rows = left;
            loaded = ground arith;
            file = file;
            digest = sym (ap (checksum_of codec) file);
          }

      by_vectors :
          (d : ℕ) (r : Result (List Vector))
          → m.dim ≡ some d
          → get_vectors d s.tables ≡ r
          → IsFlushed s m (flush host now s).1
      by_vectors d (err x) e f = absurd (ground arith)
      by_vectors d (ok vectors) e f =
          by_spec d vectors (index_spec codec.repr codec.truncate d (index_config m)) e f refl

      by_dim : (o : Option ℕ) → m.dim ≡ o → IsFlushed s m (flush host now s).1
      by_dim none e = absurd (ground arith)
      by_dim (some d) e = by_vectors d (get_vectors d s.tables) e refl

spec_dim-IsSound : (d : ℕ) (spec : IndexSpec) → IsSound d spec → spec_dim spec ≡ d
spec_dim-IsSound d (flat_ip dim) h = h
spec_dim-IsSound d (flat_l2 dim) h = h
spec_dim-IsSound d (ivf_flat dim nlist m) h = h.0
spec_dim-IsSound d (ivf_lvq dim nlist nlocal nbits m) h = h.0
spec_dim-IsSound d (ivf_pq dim nlist m_pq nbits m) h = h.0
spec_dim-IsSound d (hnsw_flat dim m_hnsw m) h = h.0
spec_dim-IsSound d (hnsw_lvq dim nlocal nbits m_hnsw m) h = h.0
spec_dim-IsSound d (hnsw_pq dim m_pq nbits m_hnsw m) h = h.0

module _ {Index : Type 0} (host : Host Index) (laws : IsHypervec host.hypervec) where
  open host use {codec, hypervec}

  n_total-fill :
      (i : Index) (vectors : List Vector)
      → hypervec.n_total (fill host i vectors) ≡ hypervec.n_total i + length vectors
  unfolding fill
  n_total-fill i vectors = ground (
    arith,
    laws.add-n_total i vectors,
    laws.add-n_total (hypervec.train i vectors) vectors,
    laws.train-n_total i vectors,
  )

  dim-fill :
      (i : Index) (vectors : List Vector) → hypervec.dim (fill host i vectors) ≡ hypervec.dim i
  unfolding fill
  dim-fill i vectors = elim (Bool-cases (hypervec.is_trained i)) [
    | inl e ↦ rw (e, fill) (laws.add-dim i vectors)
    | inr e ↦
        rw (e, fill) (laws.add-dim (hypervec.train i vectors) vectors ∙ laws.train-dim i vectors)
  ]

  -- After a flush that returns, of a collection that is in the state `ready`, every check of an export
  -- passes: the index file is there, it covers the version of the data, and its count and dimension
  -- are those of the rows and the entry.
  pub flush-check_export :
      (now : ℕ) (s : Collection Index) (m : CollectionMeta) (answer : Flushed)
      → s.meta ≡ some m
      → m.data_state ≡ ready
      → (flush host now s).0 ≡ ok answer
      → let t = (flush host now s).1 in
        (e : CollectionMeta) × (t.meta ≡ some e)
        × (check_export host e t ≡ (ok (count t.tables), t))
  unfolding check_export live_index is_unexportable
  flush-check_export now s m answer stored is_ready done =
      let f = flush-IsFlushed host now s m answer stored done in
      let index = fill host (hypervec.make f.spec) f.vectors in
      let same : hypervec.n_total index ≡ count (flush host now s).1.tables = omega (
        arith,
        n_total-fill (hypervec.make f.spec) f.vectors,
        laws.make-n_total f.spec,
        length-get_vectors f.dim s.tables f.vectors f.fetched,
        ap count f.rows,
      ) in
      let dim : hypervec.dim index ≡ f.dim =
        dim-fill (hypervec.make f.spec) f.vectors
        ∙ laws.make-dim f.spec
        ∙ spec_dim-IsSound f.dim f.spec
            (index_spec-IsSound codec.truncate codec.repr f.dim (index_config m) f.spec
              f.chosen).0 in
      (
        f.entry,
        f.stored,
        ground (
          arith, f.state, f.covered, f.data_version, f.counted, f.loaded, f.file, f.same_dimension,
          same, dim,
        ),
      )
