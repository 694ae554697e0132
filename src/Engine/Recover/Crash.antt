-- ===== src/Engine/Recover/Crash.antt =====
-- Crashes in the middle of an import (src/python/hypervec_server_engine.py): what the recovery makes of
-- a stop after any of its durable writes.
use hyper_vector.Common.{
  ℕ, zero, suc, ◌≤◌, ◌≡◌, ◌≢◌, sym, ap, subst, none, some, List, arith, length, take,
}
use hyper_vector.Common.Result.{ok}
use hyper_vector.Meta.{CollectionMeta, importing}
use hyper_vector.Scalar.{Table, commit_staging}
use hyper_vector.Engine.State.{Collection, Host}
use hyper_vector.Engine.Import.{
  Restore, stage_index, stage_rows, mark_importing, set_aside, switch_index, finalize,
  drop_pre_import,
}
use hyper_vector.Engine.Recover.{restart}
use hyper_vector.Engine.Recover.Stops.{
  run_steps, later_steps, stopped, IsBefore, IsAfter, stage_rows-ok,
}

module _ {Index : Type 0} (host : Host Index) (now : ℕ) (m : CollectionMeta) (r : Restore) where
  -- The collection before the import, with what is known of it written out.
  abbrev settled : Collection Index → List ℕ → Collection Index
  settled s old = record s {
    meta = some m;
    dir = record s.dir { index = some old; pre_import = none };
  }

  module _ (s : Collection Index) (old : List ℕ) (idle : m.data_state ≢ importing)
      (no_txn : m.import_txn ≡ none) where
    abbrev start : Collection Index
    start = settled s old

    module _ (t : Table) (later : ℕ)
        (staged : (stage_rows host now r.rows (stage_index host r.index_bytes start)).1
          ≡ record (stage_index host r.index_bytes start) {
            tables = record s.tables { staging = some t };
          })
        (counted : length t ≡ length r.rows) where
      -- Stopped before the commit intent: the next start finds nothing to do.
      early :
          (k : ℕ)
          → k ≤ 2
          → IsBefore host now m r start (restart host later (stopped host now m r k start))
      unfolding restart stage_index
      early zero h = record {
        index = ground arith;
        rows = ground arith;
        at = m.updated_at;
        entry = ground arith;
      }
      early (suc zero) h = record {
        index = ground arith;
        rows = ground arith;
        at = m.updated_at;
        entry = ground arith;
      }
      early (suc (suc zero)) h = rw staged (record {
        index = ground arith;
        rows = ground arith;
        at = m.updated_at;
        entry = ground arith;
      })
      early (suc (suc (suc k))) h = absurd (omega arith)

      abbrev staged_state : Collection Index
      staged_state = record (stage_index host r.index_bytes start) {
        tables = record s.tables { staging = some t };
      }

      -- From the staged rows on, `k` more writes.
      abbrev stopped_later : ℕ → Collection Index
      stopped_later k = run_steps (take k (later_steps host now m r)) staged_state

      from_staged : (k : ℕ) → stopped_later k ≡ stopped host now m r (suc (suc k)) start
      from_staged k = ap (run_steps (take k (later_steps host now m r))) (sym staged)

      -- Stopped with the staging table still there: the next start rolls back.
      marked :
          (k : ℕ)
          → 1 ≤ k
          → k ≤ 3
          → IsBefore host now m r start (restart host later (stopped_later k))
      unfolding restart stage_index mark_importing set_aside switch_index
      marked (suc zero) h g = record {
        index = ground arith;
        rows = ground arith;
        at = later;
        entry = ground arith;
      }
      marked (suc (suc zero)) h g = record {
        index = ground arith;
        rows = ground arith;
        at = later;
        entry = ground arith;
      }
      marked (suc (suc (suc zero))) h g = record {
        index = ground arith;
        rows = ground arith;
        at = later;
        entry = ground arith;
      }
      marked _ h g = absurd (omega arith)

      -- Stopped after the rows were switched: the next start rolls forward, or has nothing to do.
      switched :
          (k : ℕ) → 4 ≤ k → k ≤ 6 → IsAfter host now m r t (restart host later (stopped_later k))
      unfolding restart stage_index mark_importing set_aside switch_index commit_staging finalize
          drop_pre_import
      switched (suc (suc (suc (suc zero)))) h g = record {
        index = ground arith;
        rows = ground arith;
        staging = ground arith;
        at = later;
        entry = ground arith;
      }
      switched (suc (suc (suc (suc (suc zero))))) h g = record {
        index = ground arith;
        rows = ground arith;
        staging = ground arith;
        at = now;
        entry = ground arith;
      }
      switched (suc (suc (suc (suc (suc (suc zero)))))) h g = record {
        index = ground arith;
        rows = ground arith;
        staging = ground arith;
        at = now;
        entry = ground arith;
      }
      switched _ h g = absurd (omega arith)

module _ {Index : Type 0} (host : Host Index) (now later : ℕ) (m : CollectionMeta) (r : Restore)
    (s : Collection Index) where
  settled-eq :
      (old : List ℕ)
      → s.meta ≡ some m
      → s.dir.index ≡ some old
      → s.dir.pre_import ≡ none
      → settled host now m r s old ≡ s
  settled-eq old e f g = ground arith

  -- What recovery makes of an import that stopped after `k` of its eight durable writes.
  abbrev pub Recovered : ℕ → Collection Index → Type 0
  Recovered k s' =
      (k ≤ 5 → IsBefore host now m r s' (restart host later (stopped host now m r k s')))
      × (6 ≤ k
          → (t : Table) × ((stage_rows host now r.rows
                (stage_index host r.index_bytes s')).1.tables.staging
              ≡ some t)
            × IsAfter host now m r t (restart host later (stopped host now m r k s')))

  module _ (old : List ℕ) (idle : m.data_state ≢ importing) (no_txn : m.import_txn ≡ none)
      (t : Table)
      (staged : (stage_rows host now r.rows
          (stage_index host r.index_bytes (settled host now m r s old))).1
        ≡ record (stage_index host r.index_bytes (settled host now m r s old)) {
          tables = record s.tables { staging = some t };
        })
      (counted : length t ≡ length r.rows) where
    abbrev begin : Collection Index
    begin = settled host now m r s old

    recover_at : (k : ℕ) → k ≤ 8 → Recovered k begin
    recover_at zero h = (
      λ l. early host now m r s old idle no_txn t later staged counted zero (omega arith),
      λ g. absurd (omega arith),
    )
    recover_at (suc zero) h = (
      λ l. early host now m r s old idle no_txn t later staged counted (suc zero) (omega arith),
      λ g. absurd (omega arith),
    )
    recover_at (suc (suc zero)) h = (
      λ l.
          early host now m r s old idle no_txn t later staged counted (suc (suc zero))
            (omega arith),
      λ g. absurd (omega arith),
    )
    recover_at (suc (suc (suc k))) h = (
      λ l.
          subst (λ x. IsBefore host now m r begin (restart host later x))
            (from_staged host now m r s old idle no_txn t later staged counted (suc k))
            (marked host now m r s old idle no_txn t later staged counted (suc k) (omega arith)
              (omega arith)),
      λ g. (
        t,
        ap (λ (x : Collection Index). x.tables.staging) staged,
        subst (λ x. IsAfter host now m r t (restart host later x))
            (from_staged host now m r s old idle no_txn t later staged counted (suc k))
            (switched host now m r s old idle no_txn t later staged counted (suc k) (omega arith)
              (omega arith)),
      ),
    )

  settled-Recovered :
      (old : List ℕ) (n k : ℕ)
      → m.data_state ≢ importing
      → m.import_txn ≡ none
      → (stage_rows host now r.rows (stage_index host r.index_bytes (settled host now m r s old))).0
        ≡ ok n
      → k ≤ 8
      → Recovered k (settled host now m r s old)
  unfolding stage_index
  settled-Recovered old n k idle no_txn done le =
      let (t, staged, counted) =
        stage_rows-ok host now m r (stage_index host r.index_bytes (settled host now m r s old)) n
          done in
      recover_at old idle no_txn t staged counted k le

  -- An import of rows that can be staged, into a collection that has an index file, no file left over
  -- from an earlier import and no import under way, is atomic under crashes. If it stops after any of
  -- its eight durable writes and the server starts again, then index, rows and metadata are those from
  -- before the import if it stopped at or before the fifth write, and those of the finished import
  -- if it stopped later, up to the times of the last change.
  pub crash-Recovered :
      (old : List ℕ) (n k : ℕ)
      → s.meta ≡ some m
      → m.data_state ≢ importing
      → m.import_txn ≡ none
      → s.dir.index ≡ some old
      → s.dir.pre_import ≡ none
      → (stage_rows host now r.rows (stage_index host r.index_bytes s)).0 ≡ ok n
      → k ≤ 8
      → Recovered k s
  crash-Recovered old n k e idle no_txn f g done le =
      let same = settled-eq old e f g in
      subst (Recovered k) same (
        settled-Recovered old n k idle no_txn
          (subst (λ x. (stage_rows host now r.rows (stage_index host r.index_bytes x)).0 ≡ ok n)
            (sym same) done)
          le)
