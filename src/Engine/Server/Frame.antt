-- ===== src/Engine/Server/Frame.antt =====
-- What a call of an engine method changes of the server.
use hyper_vector.Common.{
  ℕ, String, ◌≡◌, ◌≢◌, sym, subst, ap, ◌∙◌, Bool-cases, inl, inr, str_eq, eq_iff, false≢true, List,
  arith,
}
use hyper_vector.Common.Dict
use hyper_vector.Common.Dict.{Dict, string_key, codes_key}
use hyper_vector.Names.{codes}
use hyper_vector.Names.Tables.{live_table, import_table, import_table-ne-live_table}
use hyper_vector.Scalar.{Table}
use hyper_vector.Engine.State.{Collection, Dir}
use hyper_vector.Engine.Server.{Server, view, put_back, dir_or_empty}

-- Two collections that share no table of the database.
pub record AreSeparate (a b : String) : Type 0 where
  pub names : a ≢ b
  pub lives : live_table (codes a) ≢ live_table (codes b)
  pub live_staging : live_table (codes a) ≢ import_table (codes b)
  pub staging_live : import_table (codes a) ≢ live_table (codes b)
  pub stagings : import_table (codes a) ≢ import_table (codes b)

module _ {Index : Type 0} (name : String) (c : Collection Index) (s : Server Index) where
  -- A method sees what it wrote.
  pub view-put_back : view name (put_back name c s) ≡ c
  unfolding view put_back
  view-put_back = ground (
    arith,
    Dict.get-put?_self s.metas name c.meta,
    Dict.get-put?_self (Dict.put? s.db (live_table (codes name)) c.tables.live)
        (import_table (codes name)) c.tables.staging,
    Dict.get-put?_ne (Dict.put? s.db (live_table (codes name)) c.tables.live)
        (import_table (codes name)) c.tables.staging (live_table (codes name))
        (import_table-ne-live_table (codes name)),
    Dict.get-put?_self s.db (live_table (codes name)) c.tables.live,
    Dict.get-put_self s.dirs name c.dir,
    Dict.get-put?_self s.indexes name c.loaded,
    Dict.get-put?_self s.scalar_cache name c.cache,
  )

  -- And no collection with other tables does.
  pub view-put_back_ne :
      (other : String) → AreSeparate name other → view other (put_back name c s) ≡ view other s
  unfolding view put_back
  view-put_back_ne other h = ground (
    arith,
    Dict.get-put?_ne s.metas name c.meta other h.names,
    Dict.get-put?_ne (Dict.put? s.db (live_table (codes name)) c.tables.live)
        (import_table (codes name)) c.tables.staging (live_table (codes other)) h.staging_live,
    Dict.get-put?_ne (Dict.put? s.db (live_table (codes name)) c.tables.live)
        (import_table (codes name)) c.tables.staging (import_table (codes other)) h.stagings,
    Dict.get-put?_ne s.db (live_table (codes name)) c.tables.live (live_table (codes other))
        h.lives,
    Dict.get-put?_ne s.db (live_table (codes name)) c.tables.live (import_table (codes other))
        h.live_staging,
    Dict.get-put_ne s.dirs name c.dir other h.names,
    Dict.get-put?_ne s.indexes name c.loaded other h.names,
    Dict.get-put?_ne s.scalar_cache name c.cache other h.names,
  )

put-dir_same :
    (d : Dict String Dir) (name b : String)
    → dir_or_empty (Dict.get (Dict.put d name (dir_or_empty (Dict.get d name))) b)
      ≡ dir_or_empty (Dict.get d b)
put-dir_same d name b = elim (Bool-cases (str_eq name b)) [
  | inl e ↦
      subst
        (λ i.
          dir_or_empty (Dict.get (Dict.put d name (dir_or_empty (Dict.get d name))) i)
          ≡ dir_or_empty (Dict.get d i))
        ((eq_iff name b).0 e)
        (ap dir_or_empty (Dict.get-put_self d name (dir_or_empty (Dict.get d name))))
  | inr e ↦
      ap dir_or_empty (Dict.get-put_ne d name _ b (λ p. false≢true (sym e ∙ (eq_iff name b).1 p)))
]

put-db_same :
    (d : Dict (List ℕ) Table) (l k j : List ℕ)
    → Dict.get (Dict.put? (Dict.put? d l (Dict.get d l)) k (Dict.get d k)) j ≡ Dict.get d j
put-db_same d l k j =
    let inner = Dict.get-put?_same d l in
    ap (λ o. Dict.get (Dict.put? (Dict.put? d l (Dict.get d l)) k o) j) (sym (inner k))
    ∙ Dict.get-put?_same (Dict.put? d l (Dict.get d l)) k j
    ∙ inner j

-- A call that leaves its collection as it was leaves every collection as it was.
pub view-put_back_same :
    {Index : Type 0} (name b : String) (s : Server Index)
    → view b (put_back name (view name s) s) ≡ view b s
unfolding view put_back
view-put_back_same name b s = ground (
  arith,
  Dict.get-put?_same s.metas name b,
  put-db_same s.db (live_table (codes name)) (import_table (codes name)) (live_table (codes b)),
  put-db_same s.db (live_table (codes name)) (import_table (codes name)) (import_table (codes b)),
  put-dir_same s.dirs name b,
  Dict.get-put?_same s.indexes name b,
  Dict.get-put?_same s.scalar_cache name b,
)
