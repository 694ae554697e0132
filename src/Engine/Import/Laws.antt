-- ===== src/Engine/Import/Laws.antt =====
-- What an import does to the collection, on its error paths and when it returns
-- (src/python/hypervec_server_engine.py).
use hyper_vector.Common.{ℕ, ◌≡◌, refl, ◌∙◌, String, false, Option, none, some, List, arith}
use hyper_vector.Common.Result.{Result, ok, err, Error, traverse}
use hyper_vector.Common.Exec.{lift, continue, ◌>>=◌}
use hyper_vector.Meta.{CollectionMeta}
use hyper_vector.Scalar.{Doc, import_rows_to_staging, commit_staging}
use hyper_vector.Bundle.Archive.{BundleFile}
use hyper_vector.Engine.State.{Collection, Host, Method, meta_or_raise}
use hyper_vector.Engine.Import.{
  Restore, row_of_dict, stage_index, check_staged, stage_rows, mark_importing, prepare, withdraw,
  prepare_or_withdraw, commit, set_aside, switch_index, finalize, drop_pre_import, is_pending,
  import_collection_bundle, restore, read_source, check_manifest,
}

module _ {Index : Type 0} (host : Host Index) (now : ℕ) (m : CollectionMeta) (r : Restore) where
  -- `stage_rows` changes the staging table alone.
  pub stage_rows-frame :
      (s : Collection Index)
      → (stage_rows host now r.rows s).1 ≡ record s {
        tables = record s.tables { staging = (stage_rows host now r.rows s).1.tables.staging };
      }
  unfolding stage_rows import_rows_to_staging
  stage_rows-frame s = by_docs (traverse (row_of_dict host.codec) r.rows) refl
    where
      by_docs :
          (d : Result (List Doc))
          → traverse (row_of_dict host.codec) r.rows ≡ d
          → (stage_rows host now r.rows s).1 ≡ record s {
            tables = record s.tables { staging = (stage_rows host now r.rows s).1.tables.staging };
          }
      by_docs (err x) e = rw e
      by_docs (ok docs) e = rw e

  pub check_staged-state : (s : Collection Index) → (check_staged host r s).1 ≡ s
  unfolding check_staged
  check_staged-state s = ground arith

  -- What an import that failed in its prepare phase has to leave alone, and what it has to clean up.
  pub record IsWithdrawn (s t : Collection Index) : Type 0 where
    pub entry : t.meta ≡ s.meta
    pub rows : t.tables.live ≡ s.tables.live
    pub index : t.dir.index ≡ s.dir.index
    pub pre_import : t.dir.pre_import ≡ s.dir.pre_import
    pub staged_rows : t.tables.staging ≡ none
    pub staged_index : t.dir.staging ≡ none
    pub loaded : t.loaded ≡ s.loaded
    pub cache : t.cache ≡ s.cache

  -- Any failure of the prepare phase, of reading the staged index, of its counts and dimension, of a
  -- row, or of the insertion, leaves the collection as it was, with no staged rows and no staged index,
  -- where no import was under way.
  pub prepare_or_withdraw-IsWithdrawn :
      (s : Collection Index) (e : Error)
      → s.meta ≡ some m
      → is_pending m.data_state m.import_txn ≡ false
      → (prepare_or_withdraw host now m r s).0 ≡ err e
      → IsWithdrawn s (prepare_or_withdraw host now m r s).1
  unfolding prepare_or_withdraw prepare withdraw stage_index mark_importing
  prepare_or_withdraw-IsWithdrawn s e h p f = ground (
    arith,
    stage_rows-frame (stage_index host r.index_bytes s),
    check_staged-state (stage_index host r.index_bytes s),
  )

  cache-prepare_or_withdraw :
      (s : Collection Index) → (prepare_or_withdraw host now m r s).1.cache ≡ s.cache
  unfolding prepare_or_withdraw prepare withdraw stage_index mark_importing
  cache-prepare_or_withdraw s = ground (
    arith,
    stage_rows-frame (stage_index host r.index_bytes s),
    check_staged-state (stage_index host r.index_bytes s),
  )

  cache-commit : (s : Collection Index) → (commit host now m r s).1.cache ≡ s.cache
  unfolding commit set_aside switch_index commit_staging finalize drop_pre_import
  cache-commit s = ground arith

-- A method that leaves the scalar cache alone, whether it raises or returns.
abbrev KeepsCache : {Index A : Type 0} → Method Index A → Type 0
KeepsCache {Index} f = (s : Collection Index) → (f s).1.cache ≡ s.cache

continue-KeepsCache :
    {Index A B : Type 0} (r : Result A) (f : A → Method Index B) (s t : Collection Index)
    → s.cache ≡ t.cache
    → ((a : A) → KeepsCache (f a))
    → (continue r f s).1.cache ≡ t.cache
continue-KeepsCache (ok a) f s t e h = h a s ∙ e
continue-KeepsCache (err x) f s t e h = e

bind-KeepsCache :
    {Index A B : Type 0} (m : Method Index A) (f : A → Method Index B)
    → KeepsCache m
    → ((a : A) → KeepsCache (f a))
    → KeepsCache (m >>= f)
bind-KeepsCache m f k h s = continue-KeepsCache (m s).0 f (m s).1 s (k s) h

-- An import leaves the scalar cache as it is, whether it raises or returns.
pub import-cache :
    {Index : Type 0} (host : Host Index) (now : ℕ) (name : String) (source : Option BundleFile)
    (checksum : Option String) (mode : String) (s : Collection Index)
    → (import_collection_bundle host now name source checksum mode s).1.cache ≡ s.cache
unfolding import_collection_bundle restore
import-cache host now name source checksum mode =
    bind-KeepsCache (lift (read_source host name source checksum mode)) _ (λ s. refl)
      λ b.
        bind-KeepsCache meta_or_raise _ (λ s. ground arith)
          λ m.
            bind-KeepsCache (lift (check_manifest host m b.0)) _ (λ s. refl)
              λ c.
                bind-KeepsCache (prepare_or_withdraw host now m _) _
                  (cache-prepare_or_withdraw host now m _)
                  λ i.
                    bind-KeepsCache (commit host now m _) _ (cache-commit host now m _) λ u s. refl
