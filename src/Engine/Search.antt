-- ===== src/Engine/Search.antt =====
-- `search` of src/python/hypervec_server_engine.py.
pub mod Hits
pub mod Laws
use hyper_vector.Common.{
  ℕ, zero, suc, ◌+◌, ◌*◌, String, Bool, true, false, not, ◌&&◌, ◌||◌, Option, none, some, List, [],
  ◌∷◌, map, ltb, ◌==◌, str_eq, if◌then◌else◌, length, min, max,
}
use hyper_vector.Common.Result
use hyper_vector.Common.Result.{
  Result, ok, err, Error, conflict_error, file_not_found, value_error, key_error, traverse,
}
use hyper_vector.Common.Exec.{pure, raise, lift, gets, refuse, or_raise, ◌>>=◌, ◌>>◌}
use hyper_vector.Json.{Json, str, Fields, end, field, put}
use hyper_vector.Library.{Codec, Hypervec}
use hyper_vector.Meta.{CollectionMeta, DataState, ready, purged, importing, invalid}
use hyper_vector.Scalar.{Scalar, Tables, Vector, find, get_by_row_ids}
use hyper_vector.Bundle.Lines.{Text}
use hyper_vector.Engine.Filter.{filter_match}
use hyper_vector.Engine.State.{Collection, Host, Method, Cache, meta_or_raise}
use hyper_vector.Engine.Flush.{load_collection_unlocked}

-- The query matrix: its second dimension and its rows.
pub record Matrix : Type 0 where
  pub columns : ℕ
  pub rows : List Vector

-- What numpy makes of the queries, and the texts that pydantic reads as a number.
pub record Numbers : Type 0 where
  pub as_matrix : Json → Option Matrix
  pub is_number : String → Bool

pub record Hit : Type 0 where
  pub id : String
  pub distance : ℕ
  pub entity : Fields

-- {**metadata, id_field: doc_id, text_field: text_content}
unfoldable pub row_of : CollectionMeta → Scalar → Fields
unfolding put
row_of meta scalar =
    put (put scalar.metadata meta.id_field (str scalar.doc_id)) meta.text_field
      (str scalar.text_content)

unfoldable pub is_requested : List String → String → Bool
is_requested [] k = false
is_requested (j ∷ js) k = str_eq j k || is_requested js k

unfoldable pub select : List String → Fields → Fields
unfolding is_requested
select requested end = end
select requested (field k v row) =
    let rest = select requested row in if is_requested requested k then field k v rest else rest

-- No requested field means all of them.
unfoldable pub entity_of : List String → Fields → Fields
unfolding select
entity_of [] row = row
entity_of (f ∷ fs) row = select (f ∷ fs) row

-- The labels that are not negative, with their distances.
unfoldable pub pairs_of : List (Option ℕ × ℕ) → List (ℕ × ℕ)
pairs_of [] = []
pairs_of ((none, d) ∷ ls) = pairs_of ls
pairs_of ((some i, d) ∷ ls) = (i, d) ∷ pairs_of ls

abbrev is_invalid : DataState → Bool
is_invalid ready = false
is_invalid purged = false
is_invalid importing = false
is_invalid invalid = true

abbrev is_empty_text : Text → Bool
is_empty_text [] = true
is_empty_text (c ∷ s) = false

-- With a filter more candidates are asked for than hits are wanted.
unfoldable pub candidate_count : Text → ℕ → ℕ → ℕ
candidate_count filter total limit =
    if is_empty_text filter then min total limit else min total (max limit (limit * 8))

-- `row.get(meta.id_field, row_id)` is the document id, since the row has that entry.
unfoldable pub hit_of : CollectionMeta → List String → ℕ → Scalar → Hit
unfolding row_of entity_of
hit_of meta requested distance scalar = record {
  id = if str_eq meta.id_field meta.text_field then scalar.text_content else scalar.doc_id;
  distance = distance;
  entity = entity_of requested (row_of meta scalar);
}

-- The scalars of the labels, from the cache or the store.
unfoldable pub scalars_of : Option Cache → Tables → List ℕ → Result (List (Option Scalar))
scalars_of (some cache) tables ids = ok (map (find cache) ids)
scalars_of none tables ids = get_by_row_ids ids tables

module _ (repr : Json → String) (meta : CollectionMeta) (requested : List String)
    (filter : Text) where
  -- The loop over the candidates of one query; `room` hits are still wanted.
  unfoldable pub hits_of : ℕ → List (ℕ × ℕ) → List (Option Scalar) → Result (List Hit)
  unfolding hit_of filter_match
  hits_of zero pairs scalars = ok []
  hits_of (suc room) [] scalars = ok []
  hits_of (suc room) (p ∷ pairs) [] = ok []
  hits_of (suc room) (p ∷ pairs) (none ∷ scalars) = hits_of (suc room) pairs scalars
  hits_of (suc room) ((i, distance) ∷ pairs) (some scalar ∷ scalars) =
      let skip = hits_of (suc room) pairs scalars in
      let taken =
        Result.◌>>=◌ (hits_of room pairs scalars)
          (λ hits. ok (hit_of meta requested distance scalar ∷ hits)) in
      Result.◌>>=◌ (filter_match repr (row_of meta scalar) filter)
        (λ passes. if passes then taken else skip)

  unfoldable pub answer : ℕ → Option Cache → Tables → List (Option ℕ × ℕ) → Result (List Hit)
  unfolding hits_of pairs_of scalars_of
  answer limit cache tables labels =
      Result.◌>>=◌ (scalars_of cache tables (map (λ p. p.0) (pairs_of labels)))
        (hits_of limit (pairs_of labels))

module _ {Index : Type 0} (host : Host Index) where
  open host use {codec, hypervec}

  unfoldable pub load_for_search : Method Index (Unit {0})
  unfolding meta_or_raise load_collection_unlocked
  load_for_search = do
    meta ← meta_or_raise
    refuse (is_invalid meta.data_state) conflict_error
    file ← gets (λ s. s.dir.index)
    or_raise file_not_found file
    load_collection_unlocked host meta

  -- The index is loaded at the first search.
  unfoldable pub load_if_absent : Method Index (Unit {0})
  unfolding load_for_search
  load_if_absent s = elim s.loaded [ some index ↦ (ok tt, s) | none ↦ load_for_search s ]

  -- The search in the loaded index. `query` is `none` where the data is no 2-D matrix.
  unfoldable pub search_loaded :
      Option Matrix → ℕ → Fields → List String → Text → Method Index (List (List Hit))
  unfolding meta_or_raise candidate_count
  search_loaded query limit search_params requested filter = do
    meta ← meta_or_raise
    dim ← or_raise value_error meta.dim
    matrix ← or_raise value_error query
    refuse (not (matrix.columns == dim)) value_error
    loaded ← gets (λ s. s.loaded)
    index ← or_raise key_error loaded
    let found =
        hypervec.search index matrix.rows (candidate_count filter meta.total limit) search_params
    λ s. (traverse (answer codec.repr meta requested filter limit s.cache s.tables) found, s)

  -- Loading the index, if it is not loaded, and searching it are two steps under the collection's lock;
  -- here nothing comes in between.
  unfoldable pub search :
      Option Matrix → ℕ → Fields → List String → Text → Method Index (List (List Hit))
  unfolding load_if_absent search_loaded
  search query limit search_params requested filter = do
    refuse (limit == 0) value_error
    load_if_absent
    search_loaded query limit search_params requested filter
