-- ===== src/Engine/Insert/Laws.antt =====
-- What an insertion leaves (src/python/hypervec_server_engine.py).
use hyper_vector.Common.{
  ℕ, ◌+◌, ◌≡◌, refl, ap, subst, sym, ◌∙◌, Bool, true, Option, none, some, List, [], ◌∷◌, arith,
  length, ◌≤◌, String, inl, inr,
}
use hyper_vector.Common.Result.{
  Result, ok, err, Error, conflict_error, file_not_found, >>=-eq-ok, ok_inj,
}
use hyper_vector.Json.{Fields}
use hyper_vector.Library.{Codec}
use hyper_vector.Meta.{CollectionMeta, DataState, ready, purged, importing, invalid}
use hyper_vector.Scalar.{Tables, NewRow, ensure_table, next_row_id, insert_batch, count}
use hyper_vector.Scalar.Laws.{HasTable, IsAtomic, insert_batch-IsAtomic}
use hyper_vector.Engine.State.{Collection, Host, meta_or_raise, meta_update}
use hyper_vector.Engine.Export.{export_collection_bundle, check_export, is_unexportable}
use hyper_vector.Engine.Purge.{purge_collection_data}
use hyper_vector.Engine.Purge.Laws.{purge-IsCovered}
use hyper_vector.Engine.Insert.{prepare_row, prepare_rows, insert}

length-prepare_rows :
    (c : Codec) (m : CollectionMeta) (row_id : ℕ) (dim : Option ℕ) (batch : List Fields)
    (r : Option ℕ × List NewRow)
    → prepare_rows c m row_id dim batch ≡ ok r
    → length r.1 ≡ length batch
unfolding prepare_rows
length-prepare_rows c m row_id dim [] r h = ground arith
length-prepare_rows c m row_id dim (row ∷ batch) r h =
    let (p, e, h₁) = >>=-eq-ok (prepare_row c m row_id dim row) _ h in
    let (rest, e₁, made) = >>=-eq-ok (prepare_rows c m (row_id + 1) (some p.0) batch) _ h₁ in
    let counted = length-prepare_rows c m (row_id + 1) (some p.0) batch rest e₁ in
    ground (arith, counted, made)

ensure_table-HasTable : (t : Tables) → HasTable t.live → HasTable (ensure_table t).live
unfolding ensure_table
ensure_table-HasTable t v = by_live t.live refl v
  where
    by_live : (o : Option (List _)) → t.live ≡ o → HasTable o → HasTable (ensure_table t).live
    by_live none e v = rw e tt
    by_live (some rows) e v = rw e v

count-ensure_table : (t : Tables) → count (ensure_table t) ≡ count t
unfolding ensure_table count
count-ensure_table t = ground arith

module _ {Index : Type 0} (host : Host Index) (now : ℕ) (batch : List Fields) where
  -- The collection `t` after an insertion into `s`, whose entry was `m`.
  pub record IsInserted (s : Collection Index) (m : CollectionMeta) (t : Collection Index)
      : Type 0 where
    pub entry : CollectionMeta
    pub stored : t.meta ≡ some entry
    pub data_version : entry.data_version ≡ m.data_version + 1
    pub index_version : entry.index_version ≡ m.index_version
    pub exported : entry.exported_data_version ≡ m.exported_data_version
    pub state : entry.data_state ≡ m.data_state
    pub counted : entry.total ≡ count t.tables
    pub grown : count t.tables ≡ count s.tables + length batch
    pub table : HasTable t.tables.live
    pub dir : t.dir ≡ s.dir
    pub unloaded : t.loaded ≡ none
    pub uncached : t.cache ≡ none

  -- An insertion that returns has added one row for each of its documents to a table with unique ids in
  -- order, which is again one. The version of the data is one higher, the version of the index is not;
  -- the total of the entry is the number of rows; the files are the same, and the index and the scalars
  -- are no longer in memory. The answer is the number of documents and the number of rows.
  pub insert-IsInserted :
      (s : Collection Index) (m : CollectionMeta) (answer : ℕ × ℕ)
      → s.meta ≡ some m
      → HasTable s.tables.live
      → (insert host now batch s).0 ≡ ok answer
      → IsInserted s m (insert host now batch s).1
        × (answer ≡ (length batch, count s.tables + length batch))
  unfolding insert meta_or_raise meta_update
  insert-IsInserted s m answer stored v done =
      by_rows (prepare_rows host.codec m (next_row_id (ensure_table s.tables)) m.dim batch) refl
    where
      by_batch :
          (d : Option ℕ) (rows : List NewRow) (b : Result (Unit {0}) × Tables)
          → prepare_rows host.codec m (next_row_id (ensure_table s.tables)) m.dim batch
            ≡ ok (d, rows)
          → insert_batch now rows (ensure_table s.tables) ≡ b
          → IsAtomic (length rows) (ensure_table s.tables) b
          → length rows ≡ length batch
          → IsInserted s m (insert host now batch s).1
            × (answer ≡ (length batch, count s.tables + length batch))
      by_batch d rows (err x, t) e f atomic counted = absurd (ground arith)
      by_batch d rows (ok u, t) e f atomic counted =
          let (table, grown, staging) = atomic.0 refl in
          let total : count t ≡ count s.tables + length batch =
            ground (arith, grown, counted, count-ensure_table s.tables) in
          let left : (insert host now batch s).1.tables ≡ t = ground arith in
          let returned : (insert host now batch s).0 ≡ ok (length batch, count t) = ground arith in
          (
            record {
              entry = record m {
                dim = d;
                data_version = m.data_version + 1;
                total = count t;
                updated_at = now;
              };
              stored = ground arith;
              data_version = refl;
              index_version = refl;
              exported = refl;
              state = refl;
              counted = ground arith;
              grown = ap count left ∙ total;
              table = subst (λ (x : Tables). HasTable x.live) (sym left) table;
              dir = ground arith;
              unloaded = ground arith;
              uncached = ground arith;
            },
            ok_inj (sym done ∙ returned) ∙ ap (λ n. (length batch, n)) total,
          )

      by_rows :
          (r : Result (Option ℕ × List NewRow))
          → prepare_rows host.codec m (next_row_id (ensure_table s.tables)) m.dim batch ≡ r
          → IsInserted s m (insert host now batch s).1
            × (answer ≡ (length batch, count s.tables + length batch))
      by_rows (err x) e = absurd (ground arith)
      by_rows (ok (d, rows)) e =
          by_batch d rows (insert_batch now rows (ensure_table s.tables)) e refl
            (insert_batch-IsAtomic now rows (ensure_table s.tables)
              (ensure_table-HasTable s.tables v))
            (length-prepare_rows host.codec m (next_row_id (ensure_table s.tables)) m.dim batch
              (d, rows) e)

module _ {Index : Type 0} (host : Host Index) (now later : ℕ) (batch : List Fields)
    (s : Collection Index) (m : CollectionMeta) (answer : ℕ × ℕ) (stored : s.meta ≡ some m)
    (v : HasTable s.tables.live) (done : (insert host now batch s).0 ≡ ok answer) where
  -- After an insertion that returns, until the next flush, no export is made: where the version of the
  -- index was at most that of the data, an export raises an error and changes nothing.
  pub insert-no_export :
      (name : String) (to_download : Bool)
      → m.index_version ≤ m.data_version
      → let t = (insert host now batch s).1 in
        (x : Error) × (export_collection_bundle host later name to_download t ≡ (err x, t))
  unfolding export_collection_bundle check_export meta_or_raise is_unexportable
  insert-no_export name to_download le =
      let i = (insert-IsInserted host now batch s m answer stored v done).0 in
      by_index i (insert host now batch s).1.dir.index refl
    where
      by_index :
          (i : IsInserted host now batch s m (insert host now batch s).1) (o : Option (List ℕ))
          → (insert host now batch s).1.dir.index ≡ o
          → let t = (insert host now batch s).1 in
            (x : Error) × (export_collection_bundle host later name to_download t ≡ (err x, t))
      by_index i o e = by_state i.entry.data_state refl o e
        where
          by_state :
              (d : DataState)
              → i.entry.data_state ≡ d
              → (o : Option (List ℕ)) → (insert host now batch s).1.dir.index ≡ o
              → let t = (insert host now batch s).1 in
                (x : Error) × (export_collection_bundle host later name to_download t ≡ (err x, t))
          by_state ready f none e = (file_not_found, ground (arith, i.stored))
          by_state ready f (some b) e =
              (conflict_error, ground (arith, i.stored, i.data_version, i.index_version))
          by_state purged f o e = (conflict_error, ground (arith, i.stored))
          by_state importing f o e = (conflict_error, ground (arith, i.stored))
          by_state invalid f o e = (conflict_error, ground (arith, i.stored))

  -- After an insertion that returns, a purge that asks for an export is refused, and changes nothing,
  -- where no export covered a later version of the data than the one before the insertion.
  pub insert-no_purge :
      (n : ℕ)
      → m.exported_data_version ≡ some n
      → n ≤ m.data_version
      → let t = (insert host now batch s).1 in
        purge_collection_data later true t ≡ (err conflict_error, t)
  insert-no_purge n e le =
      let i = (insert-IsInserted host now batch s m answer stored v done).0 in
      elim (purge-IsCovered later (insert host now batch s).1 i.entry i.stored) [
        | inl refused ↦ refused
        | inr c ↦ absurd (ground (arith, c.rows, i.exported, i.data_version))
      ]
