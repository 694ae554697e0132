-- ===== src/Engine/Recover/Stops.antt =====
-- The durable writes of `import_collection_bundle` in order, a stop after any of them, and what has to be
-- found after it (src/python/hypervec_server_engine.py).
use hyper_vector.Common.{
  ℕ, ◌+◌, ◌≡◌, refl, none, some, List, [], ◌∷◌, map, arith, length, length-map, take,
}
use hyper_vector.Common.Result.{Result, ok, err, traverse, length-traverse}
use hyper_vector.Meta.{CollectionMeta, ready}
use hyper_vector.Scalar.{Doc, Table, insert_rows, restamp, import_rows_to_staging, commit_staging}
use hyper_vector.Scalar.Laws.{length-insert_rows}
use hyper_vector.Engine.State.{Collection, Host, on_tables}
use hyper_vector.Engine.Import.{
  Restore, row_of_dict, stage_index, stage_rows, mark_importing, set_aside, switch_index, finalize,
  drop_pre_import, dim_or,
}

abbrev pub run_steps : {S : Type 0} → List (S → S) → S → S
run_steps [] s = s
run_steps (f ∷ fs) s = run_steps fs (f s)

module _ {Index : Type 0} (host : Host Index) (now : ℕ) (m : CollectionMeta) (r : Restore) where
  -- The durable writes of the prepare phase and of the commit switch, in order.
  abbrev pub later_steps : List (Collection Index → Collection Index)
  later_steps =
      (λ s. (mark_importing host now m r s).1)
      ∷ set_aside host
      ∷ switch_index host
      ∷ (λ s. (on_tables commit_staging s).1)
      ∷ (λ s. (finalize host now m r s).1)
      ∷ drop_pre_import host
      ∷ []

  abbrev pub import_steps : List (Collection Index → Collection Index)
  import_steps =
      stage_index host r.index_bytes ∷ (λ s. (stage_rows host now r.rows s).1) ∷ later_steps

  -- The collection after a stop that let `k` of the writes through.
  abbrev pub stopped : ℕ → Collection Index → Collection Index
  stopped k s = run_steps (take k import_steps) s

  -- The collection as it was before the import: index, rows and metadata, up to the time of the last
  -- change.
  pub record IsBefore (s t : Collection Index) : Type 0 where
    pub index : t.dir.index ≡ s.dir.index
    pub rows : t.tables.live ≡ s.tables.live
    pub at : ℕ
    pub entry : t.meta ≡ some (record m { updated_at = at })

  -- The entry of a finished import.
  abbrev pub imported_entry : ℕ → CollectionMeta
  imported_entry at = record m {
    version = m.version + 1;
    dim = dim_or r.dim m.dim;
    total = length r.rows;
    flushed_at = some at;
    data_state = ready;
    last_known_total = some (length r.rows);
    data_version = m.data_version + 1;
    index_version = m.data_version + 1;
    import_txn = none;
    index_checksum = some (host.codec.sha256 r.index_bytes);
    index_size_bytes = some (length r.index_bytes);
    updated_at = at;
  }

  -- The collection as the import makes it, with the rows `t`.
  pub record IsAfter (rows_after : Table) (t : Collection Index) : Type 0 where
    pub index : t.dir.index ≡ some r.index_bytes
    pub rows : t.tables.live ≡ some rows_after
    pub staging : t.tables.staging ≡ none
    pub at : ℕ
    pub entry : t.meta ≡ some (imported_entry at)

  pub stage_rows-ok :
      (s : Collection Index) (n : ℕ)
      → (stage_rows host now r.rows s).0 ≡ ok n
      → (t : Table) × ((stage_rows host now r.rows s).1
          ≡ record s { tables = record s.tables { staging = some t } })
        × (length t ≡ length r.rows)
  unfolding stage_rows import_rows_to_staging
  stage_rows-ok s n h = by_docs (traverse (row_of_dict host.codec) r.rows) refl h
    where
      by_docs :
          (d : Result (List Doc))
          → traverse (row_of_dict host.codec) r.rows ≡ d
          → (stage_rows host now r.rows s).0 ≡ ok n
          → (t : Table) × ((stage_rows host now r.rows s).1
              ≡ record s { tables = record s.tables { staging = some t } })
            × (length t ≡ length r.rows)
      by_docs (err x) e h = absurd (ground arith)
      by_docs (ok docs) e h = (
        (insert_rows (map (restamp now) docs) []).0,
        rw e,
        omega (
          arith,
          length-insert_rows (map (restamp now) docs) [] (ground arith),
          length-map docs (restamp now),
          length-traverse (row_of_dict host.codec) r.rows docs e,
        ),
      )
