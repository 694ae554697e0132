-- ===== src/Engine/Recover/Gaps.antt =====
-- States from which recovery does not give the collection from before the import
-- (src/python/hypervec_server_engine.py): a file left over from an earlier import, and a collection
-- with no index file.
use hyper_vector.Common.{ℕ, ◌≡◌, refl, none, some, List, arith, subst, sym, ap, take, suc}
use hyper_vector.Common.Result.{ok}
use hyper_vector.Meta.{CollectionMeta, invalid}
use hyper_vector.Scalar.{Table}
use hyper_vector.Engine.State.{Collection, Host}
use hyper_vector.Engine.Import.{
  Restore, stage_index, stage_rows, mark_importing, set_aside, switch_index,
}
use hyper_vector.Engine.Recover.{restart}
use hyper_vector.Engine.Recover.Stops.{stopped, stage_rows-ok, run_steps, later_steps}

module _ {Index : Type 0} (host : Host Index) (now later : ℕ) (m : CollectionMeta) (r : Restore)
    (s : Collection Index) (n : ℕ) (entry : s.meta ≡ some m)
    (done : (stage_rows host now r.rows (stage_index host r.index_bytes s)).0 ≡ ok n) where
  -- The staged collection, and the stops after it.
  abbrev resumed : Table → ℕ → Collection Index
  resumed t k =
      run_steps (take k (later_steps host now m r)) (record (stage_index host r.index_bytes s) {
        tables = record s.tables { staging = some t };
      })

  by_staged :
      (P : Collection Index → Type 0) (k : ℕ)
      → ((t : Table) → P (restart host later (resumed t k)))
      → P (restart host later (stopped host now m r (suc (suc k)) s))
  unfolding stage_index
  by_staged P k h =
      let (t, staged, counted) =
        stage_rows-ok host now m r (stage_index host r.index_bytes s) n done in
      subst (λ x. P (restart host later x))
        (ap (run_steps (take k (later_steps host now m r))) (sym staged)) (h t)

  -- Stopped after the commit intent, with no index file and none left over: the collection is marked
  -- invalid, whatever state it was in. The rows are as they were, and there is still no index file.
  pub no_index-invalid :
      s.dir.index ≡ none
      → s.dir.pre_import ≡ none
      → let t = restart host later (stopped host now m r 3 s) in
        ((m' : CollectionMeta) × (t.meta ≡ some m') × (m'.data_state ≡ invalid))
        × (t.tables.live ≡ s.tables.live)
        × (t.dir.index ≡ none)
  unfolding restart stage_index mark_importing
  no_index-invalid f g =
      by_staged
        (λ t.
          ((m' : CollectionMeta) × (t.meta ≡ some m') × (m'.data_state ≡ invalid))
          × (t.tables.live ≡ s.tables.live)
          × (t.dir.index ≡ none))
        1
        λ t. (
          (
            record m { data_state = invalid; import_txn = none; updated_at = later },
            ground arith,
            refl,
          ),
          ground arith,
          ground arith,
        )

  -- Stopped after the commit intent, with a file left over from an earlier import: recovery puts that
  -- file in the place of the live index, and keeps the live rows.
  pub left_over-restored :
      (stale : List ℕ)
      → s.dir.pre_import ≡ some stale
      → let t = restart host later (stopped host now m r 3 s) in
        (t.dir.index ≡ some stale) × (t.tables.live ≡ s.tables.live)
  unfolding restart stage_index mark_importing
  left_over-restored stale f =
      by_staged (λ t. (t.dir.index ≡ some stale) × (t.tables.live ≡ s.tables.live)) 1
        λ t. (ground arith, ground arith)

  -- Stopped after the index was switched, where there was no index file before: recovery keeps the
  -- new index beside the old rows.
  pub no_index-mixed :
      s.dir.index ≡ none
      → s.dir.pre_import ≡ none
      → let t = restart host later (stopped host now m r 5 s) in
        (t.dir.index ≡ some r.index_bytes) × (t.tables.live ≡ s.tables.live)
  unfolding restart stage_index mark_importing set_aside switch_index
  no_index-mixed f g =
      by_staged (λ t. (t.dir.index ≡ some r.index_bytes) × (t.tables.live ≡ s.tables.live)) 3
        λ t. (ground arith, ground arith)
