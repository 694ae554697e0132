-- ===== src/Engine/Search/Laws.antt =====
-- What a search may return (src/python/hypervec_server_engine.py).
use hyper_vector.Common.{
  ℕ, ◌≡◌, ◌≢◌, refl, ap, subst, ◌∙◌, sym, String, Option, none, some, List, [], ◌∷◌, map, arith,
  ◌==◌,
}
use hyper_vector.Common.Result.{ok, value_error, traverse, >>=-eq-ok, ok_inj}
use hyper_vector.Common.Exec.{then-eq-ok, refuse}
use hyper_vector.Json.{Json, Fields}
use hyper_vector.Meta.{CollectionMeta}
use hyper_vector.Scalar.{Scalar, Tables}
use hyper_vector.Bundle.Lines.{Text}
use hyper_vector.Engine.State.{meta_or_raise, Collection, Host, Cache}
use hyper_vector.Engine.Search.{
  Hit, hits_of, Matrix, candidate_count, load_if_absent, search_loaded, scalars_of, answer,
  pairs_of, search,
}
use hyper_vector.Engine.Search.Hits.{AreHits, hits_of-AreHits}

module _ (repr : Json → String) (meta : CollectionMeta) (requested : List String)
    (filter : Text) where
  -- What one query is answered with, for which the index found `labels`.
  pub record IsAnswer (limit : ℕ) (cache : Option Cache) (tables : Tables)
      (labels : List (Option ℕ × ℕ)) (hits : List Hit) : Type 0 where
    pub scalars : List (Option Scalar)
    pub fetched : scalars_of cache tables (map (λ p. p.0) (pairs_of labels)) ≡ ok scalars
    pub chosen : AreHits repr meta requested filter limit (pairs_of labels) scalars hits

  answer-IsAnswer :
      (limit : ℕ) (cache : Option Cache) (tables : Tables) (labels : List (Option ℕ × ℕ))
      (hits : List Hit)
      → answer repr meta requested filter limit cache tables labels ≡ ok hits
      → IsAnswer limit cache tables labels hits
  unfolding answer
  answer-IsAnswer limit cache tables labels hits h =
      let (scalars, e, h₁) =
        >>=-eq-ok (scalars_of cache tables (map (λ p. p.0) (pairs_of labels)))
          (hits_of repr meta requested filter limit (pairs_of labels)) h in
      record {
        scalars = scalars;
        fetched = e;
        chosen = hits_of-AreHits repr meta requested filter limit (pairs_of labels) scalars hits h₁;
      }

  -- One answer for each query, in order.
  abbrev pub AreInOrder :
      ℕ → Option Cache → Tables → List (List (Option ℕ × ℕ)) → List (List Hit) → Type 0
  AreInOrder limit cache tables [] [] = Unit
  AreInOrder limit cache tables (labels ∷ found) (hits ∷ answers) =
      IsAnswer limit cache tables labels hits × AreInOrder limit cache tables found answers
  AreInOrder limit cache tables _ _ = ⊥

  pub answers-AreInOrder :
      (limit : ℕ) (cache : Option Cache) (tables : Tables) (found : List (List (Option ℕ × ℕ)))
      (answers : List (List Hit))
      → traverse (answer repr meta requested filter limit cache tables) found ≡ ok answers
      → AreInOrder limit cache tables found answers
  unfolding traverse
  answers-AreInOrder limit cache tables [] [] h = tt
  answers-AreInOrder limit cache tables [] (x ∷ answers) h = cc
  answers-AreInOrder limit cache tables (labels ∷ found) answers h =
      let (x, e, h₁) =
        >>=-eq-ok (answer repr meta requested filter limit cache tables labels) _ h in
      let (xs, es, made) =
        >>=-eq-ok (traverse (answer repr meta requested filter limit cache tables) found) _ h₁ in
      subst (AreInOrder limit cache tables (labels ∷ found)) (ok_inj made) (
        answer-IsAnswer limit cache tables labels x e,
        answers-AreInOrder limit cache tables found xs es,
      )

module _ {Index : Type 0} (host : Host Index) where
  open host use {codec, hypervec}

  module _ (query : Option Matrix) (limit : ℕ) (search_params : Fields) (requested : List String)
      (filter : Text) where
    -- The answers of a search in the state `t`.
    abbrev pub AreAnswers : Collection Index → List (List Hit) → Type 0
    AreAnswers t answers =
        (m : CollectionMeta) × (matrix : Matrix) × (index : Index) × (t.meta ≡ some m)
        × (query ≡ some matrix)
        × (t.loaded ≡ some index)
        × (m.dim ≡ some matrix.columns)
        × AreInOrder codec.repr m requested filter limit t.cache t.tables
            (hypervec.search index matrix.rows (candidate_count filter m.total limit) search_params)
            answers

    search_loaded-state :
        (s : Collection Index)
        → (search_loaded host query limit search_params requested filter s).1 ≡ s
    unfolding search_loaded meta_or_raise
    search_loaded-state s = ground arith

    search_loaded-AreAnswers :
        (s : Collection Index) (answers : List (List Hit))
        → (search_loaded host query limit search_params requested filter s).0 ≡ ok answers
        → AreAnswers s answers
    unfolding search_loaded meta_or_raise
    search_loaded-AreAnswers s answers h = by_parts query s.meta s.loaded refl refl refl h
      where
        by_parts :
            (q : Option Matrix) (o : Option CollectionMeta) (l : Option Index)
            → query ≡ q
            → s.meta ≡ o
            → s.loaded ≡ l
            → (search_loaded host query limit search_params requested filter s).0 ≡ ok answers
            → AreAnswers s answers
        by_parts q none l d e f h = absurd (ground arith)
        by_parts none (some m) l d e f h = absurd (ground arith)
        by_parts (some matrix) (some m) none d e f h = absurd (ground arith)
        by_parts (some matrix) (some m) (some index) d e f h =
            let all =
              answers-AreInOrder codec.repr m requested filter limit s.cache s.tables
                (hypervec.search index matrix.rows (candidate_count filter m.total limit)
                  search_params)
                answers (ground arith) in
            (m, matrix, index, e, d, f, ground arith, all)

    -- What a search returns: for each list of candidates that the index found, in order, one answer with
    -- at most `limit` hits, each made from one of these candidates whose row passes the filter, with the
    -- scalars that the cache or the store has under the candidate's label. The limit is then not zero and
    -- the query has the collection's dimension.
    pub search-AreAnswers :
        (s : Collection Index) (answers : List (List Hit))
        → (search host query limit search_params requested filter s).0 ≡ ok answers
        → (limit ≢ 0)
          × AreAnswers (search host query limit search_params requested filter s).1 answers
    unfolding search
    search-AreAnswers s answers h =
        let (_, limited, same, h₁) = then-eq-ok (refuse (limit == 0) value_error) _ s h in
        let tail = search_loaded host query limit search_params requested filter in
        let (_, loaded, same₁, h₂) =
          then-eq-ok (load_if_absent host) tail
            (refuse {S = Collection Index} (limit == 0) value_error s).1 h₁ in
        let ended = ap (λ r. r.1) (same ∙ same₁) ∙ search_loaded-state _ in
        (
          ground arith,
          subst (λ t. AreAnswers t answers) (sym ended) (search_loaded-AreAnswers _ answers h₂),
        )
