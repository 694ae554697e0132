-- ===== src/Engine/Search/Hits.antt =====
-- The loop of `search` over the candidates of one query (src/python/hypervec_server_engine.py).
use hyper_vector.Common.{
  ℕ, zero, suc, ◌≤◌, ◌≡◌, refl, subst, String, Bool, true, false, Option, none, some, List, [], ◌∷◌,
  arith, length, All, All-imp, get_elem?, if◌then◌else◌,
}
use hyper_vector.Common.Result
use hyper_vector.Common.Result.{
  Result, ok, err, Error, value_error, runtime_error, traverse, >>=-eq-ok, ok_inj,
}
use hyper_vector.Json.{Json}
use hyper_vector.Meta.{CollectionMeta}
use hyper_vector.Scalar.{Scalar}
use hyper_vector.Bundle.Lines.{Text}
use hyper_vector.Engine.Filter.{filter_match}
use hyper_vector.Engine.Search.{Hit, hit_of, row_of, hits_of}

module _ (repr : Json → String) (meta : CollectionMeta) (requested : List String)
    (filter : Text) where
  -- A hit of a candidate: it is made from the candidate's scalar and distance, and the candidate's row
  -- passes the filter.
  pub record IsHit (pairs : List (ℕ × ℕ)) (scalars : List (Option Scalar)) (h : Hit) : Type 0 where
    pub at : ℕ
    pub label : ℕ
    pub distance : ℕ
    pub scalar : Scalar
    pub candidate : get_elem? pairs at ≡ some (label, distance)
    pub found : get_elem? scalars at ≡ some (some scalar)
    pub passes : filter_match repr (row_of meta scalar) filter ≡ ok true
    pub made : h ≡ hit_of meta requested distance scalar

  later_hit :
      {pairs : List (ℕ × ℕ)} {scalars : List (Option Scalar)} {p : ℕ × ℕ} {o : Option Scalar}
      (h : Hit)
      → IsHit pairs scalars h
      → IsHit (p ∷ pairs) (o ∷ scalars) h
  later_hit h i = record {
    at = suc i.at;
    label = i.label;
    distance = i.distance;
    scalar = i.scalar;
    candidate = i.candidate;
    found = i.found;
    passes = i.passes;
    made = i.made;
  }

  abbrev pub AreHits : ℕ → List (ℕ × ℕ) → List (Option Scalar) → List Hit → Type 0
  AreHits room pairs scalars hits = (length hits ≤ room) × All (IsHit pairs scalars) hits

  later_hits :
      (room : ℕ) (pairs : List (ℕ × ℕ)) (scalars : List (Option Scalar)) (p : ℕ × ℕ)
      (o : Option Scalar) (hits : List Hit)
      → AreHits room pairs scalars hits
      → AreHits room (p ∷ pairs) (o ∷ scalars) hits
  later_hits room pairs scalars p o hits (l, a) = (l, All-imp later_hit hits a)

  first_hit :
      (room : ℕ) (pairs : List (ℕ × ℕ)) (scalars : List (Option Scalar)) (i distance : ℕ)
      (scalar : Scalar) (hits : List Hit)
      → filter_match repr (row_of meta scalar) filter ≡ ok true
      → AreHits room pairs scalars hits
      → AreHits
          (suc room)
          ((i, distance) ∷ pairs)
          (some scalar ∷ scalars)
          (hit_of meta requested distance scalar ∷ hits)
  first_hit room pairs scalars i distance scalar hits passes (l, a) = (
    omega arith,
    (
      record {
        at = 0;
        label = i;
        distance = distance;
        scalar = scalar;
        candidate = refl;
        found = refl;
        passes = passes;
        made = refl;
      },
      All-imp later_hit hits a,
    ),
  )

  no_hits :
      (room : ℕ) (pairs : List (ℕ × ℕ)) (scalars : List (Option Scalar)) (hits : List Hit)
      → ◌≡◌ {A = Result (List Hit)} (ok []) (ok hits)
      → AreHits room pairs scalars hits
  no_hits room pairs scalars [] h = (omega arith, tt)
  no_hits room pairs scalars (x ∷ hits) h = cc

  pub hits_of-AreHits :
      (room : ℕ) (pairs : List (ℕ × ℕ)) (scalars : List (Option Scalar)) (hits : List Hit)
      → hits_of repr meta requested filter room pairs scalars ≡ ok hits
      → AreHits room pairs scalars hits
  unfolding hits_of
  hits_of-AreHits zero pairs scalars hits h = no_hits zero pairs scalars hits h
  hits_of-AreHits (suc room) [] scalars hits h = no_hits (suc room) [] scalars hits h
  hits_of-AreHits (suc room) (p ∷ pairs) [] hits h = no_hits (suc room) (p ∷ pairs) [] hits h
  hits_of-AreHits (suc room) (p ∷ pairs) (none ∷ scalars) hits h =
      later_hits (suc room) pairs scalars p none hits
        (hits_of-AreHits (suc room) pairs scalars hits h)
  hits_of-AreHits (suc room) ((i, distance) ∷ pairs) (some scalar ∷ scalars) hits h =
      let (b, passes, h₁) = >>=-eq-ok (filter_match repr (row_of meta scalar) filter) _ h in
      by_passes b passes (hits_of-AreHits (suc room) pairs scalars)
        (hits_of-AreHits room pairs scalars) h₁
    where
      by_passes :
          (b : Bool)
          → filter_match repr (row_of meta scalar) filter ≡ ok b
          → ((hits' : List Hit)
              → hits_of repr meta requested filter (suc room) pairs scalars ≡ ok hits'
              → AreHits (suc room) pairs scalars hits')
          → ((hits' : List Hit)
              → hits_of repr meta requested filter room pairs scalars ≡ ok hits'
              → AreHits room pairs scalars hits')
          → (if b
              then Result.◌>>=◌
                  (hits_of repr meta requested filter room pairs scalars)
                  (λ rest. ok (hit_of meta requested distance scalar ∷ rest))
              else hits_of repr meta requested filter (suc room) pairs scalars)
            ≡ ok hits
          → AreHits (suc room) ((i, distance) ∷ pairs) (some scalar ∷ scalars) hits
      by_passes false e skip taken h₁ =
          later_hits (suc room) pairs scalars (i, distance) (some scalar) hits (skip hits h₁)
      by_passes true e skip taken h₁ =
          let (rest, e₁, made) =
            >>=-eq-ok (hits_of repr meta requested filter room pairs scalars)
              (λ rest. ok (hit_of meta requested distance scalar ∷ rest)) h₁ in
          subst (AreHits (suc room) ((i, distance) ∷ pairs) (some scalar ∷ scalars)) (ok_inj made)
            (first_hit room pairs scalars i distance scalar rest e (taken rest e₁))
