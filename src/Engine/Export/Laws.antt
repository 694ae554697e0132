-- ===== src/Engine/Export/Laws.antt =====
-- What stops an export, and what it leaves (src/python/hypervec_server_engine.py).
use hyper_vector.Common.{
  ℕ, ◌≡◌, ◌∙◌, String, Bool, true, subst, sym, ap, if◌then◌else◌, none, Option, some, map, length,
  refl, List, arith,
}
use hyper_vector.Common.Result.{Result, ok, err, conflict_error}
use hyper_vector.Json.{Fields}
use hyper_vector.Meta.{CollectionMeta, purged}
use hyper_vector.Scalar.{export_rows, count}
use hyper_vector.Bundle.Archive.{BundleFile, create_bundle, bundle_format}
use hyper_vector.Scalar.Laws.{HasTable}
use hyper_vector.Engine.State.{Collection, Host, meta_or_raise}
use hyper_vector.Engine.Insert.{insert}
use hyper_vector.Engine.Insert.Laws.{insert-IsInserted}
use hyper_vector.Engine.Flush.{Flushed, flush}
use hyper_vector.Engine.Flush.Laws.{flush-IsFlushed}
use hyper_vector.Engine.Export.{
  export_collection_bundle, check_export, check_bundle, live_index, place_bundle, mark_exported,
  exported_at, row_to_dict, Exported, is_unexportable,
}
use hyper_vector.Engine.Purge.Laws.{exported_purge, covered_lem}
use hyper_vector.Engine.Purge.{purge_collection_data}
use hyper_vector.Engine.State.{meta_update}

-- A purged collection that is filled again stays purged: after an insertion and a flush that return,
-- an export is still refused with a conflict.
pub refill-no_export :
    {Index : Type 0} (host : Host Index) (now later : ℕ) (batch : List Fields) (name : String)
    (to_download : Bool) (s : Collection Index) (m : CollectionMeta) (answer : ℕ × ℕ)
    (flushed : Flushed)
    → s.meta ≡ some m
    → m.data_state ≡ purged
    → HasTable s.tables.live
    → (insert host now batch s).0 ≡ ok answer
    → (flush host later (insert host now batch s).1).0 ≡ ok flushed
    → let t = (flush host later (insert host now batch s).1).1 in
      export_collection_bundle host later name to_download t ≡ (err conflict_error, t)
unfolding export_collection_bundle check_export meta_or_raise is_unexportable
refill-no_export host now later batch name to_download s m answer flushed stored is_purged v done
      done' =
    let i = (insert-IsInserted host now batch s m answer stored v done).0 in
    let f = flush-IsFlushed host later (insert host now batch s).1 i.entry flushed i.stored done' in
    let state : f.entry.data_state ≡ purged = f.state ∙ i.state ∙ is_purged in
    ground (arith, f.stored, state)

module _ {Index : Type 0} (host : Host Index) where
  check_export-state :
      (m : CollectionMeta) (s : Collection Index)
      → ((check_export host m s).1.meta ≡ s.meta)
        × ((check_export host m s).1.tables ≡ s.tables)
        × ((check_export host m s).1.dir ≡ s.dir)
  unfolding check_export live_index
  check_export-state m s = ground arith

  check_bundle-state :
      (m : CollectionMeta) (n : ℕ) (manifest : Fields) (to_download : Bool) (s : Collection Index)
      → ((check_bundle host m n manifest to_download s).1.meta ≡ s.meta)
        × ((check_bundle host m n manifest to_download s).1.tables ≡ s.tables)
  unfolding check_bundle live_index
  check_bundle-state m n manifest to_download s = ground arith

  -- The entry and the rows after an export of a collection whose entry was `m`.
  pub record IsExportedFrom (s : Collection Index) (m : CollectionMeta) (t : Collection Index)
      : Type 0 where
    pub entry : CollectionMeta
    pub stored : t.meta ≡ some entry
    pub rows : entry.exported_data_version ≡ some entry.data_version
    pub index : entry.exported_index_version ≡ some entry.index_version
    pub content : entry.exported_index_checksum ≡ entry.index_checksum
    pub tables : t.tables ≡ s.tables

  place_bundle-IsExportedFrom :
      (now : ℕ) (to_download : Bool) (m : CollectionMeta) (n rows : ℕ)
      (bundle : Fields × BundleFile) (s : Collection Index) (answer : Exported)
      → s.meta ≡ some m
      → (place_bundle host now to_download m n rows bundle s).0 ≡ ok answer
      → IsExportedFrom s m (place_bundle host now to_download m n rows bundle s).1
  unfolding place_bundle mark_exported meta_update
  place_bundle-IsExportedFrom now to_download m n rows bundle s answer stored done =
      let placed : Collection Index =
        if to_download then record s { dir = record s.dir { export_tmp = some bundle.1 } } else s in
      let kept = check_bundle-state m n bundle.0 to_download placed in
      record {
        entry = record m {
          last_exported_at = exported_at bundle.0;
          last_known_total = some rows;
          bundle_format = some bundle_format;
          exported_data_version = some m.data_version;
          exported_bundle_checksum = some (host.codec.sha256 (host.file_bytes bundle.1));
          exported_index_version = some m.index_version;
          exported_index_checksum = m.index_checksum;
          updated_at = now;
        };
        stored = ground (arith, kept);
        rows = refl;
        index = refl;
        content = refl;
        tables = ground (arith, kept);
      }

  abbrev bundle_of : ℕ → String → CollectionMeta → Collection Index → List ℕ → Fields × BundleFile
  bundle_of now name m t b =
      create_bundle host.codec now name b (map (row_to_dict host.codec) (export_rows t.tables)) m

  meta_or_raise-ok :
      (s : Collection Index) (m : CollectionMeta) → s.meta ≡ some m → meta_or_raise s ≡ (ok m, s)
  unfolding meta_or_raise
  meta_or_raise-ok s m e = ground arith

  export-place_bundle :
      (now : ℕ) (name : String) (to_download : Bool) (s t : Collection Index) (m : CollectionMeta)
      (n : ℕ) (b : List ℕ)
      → s.meta ≡ some m
      → check_export host m s ≡ (ok n, t)
      → t.dir.index ≡ some b
      → export_collection_bundle host now name to_download s
        ≡ place_bundle host now to_download m n
            (length (map (row_to_dict host.codec) (export_rows t.tables)))
            (bundle_of now name m t b)
            t
  unfolding export_collection_bundle
  export-place_bundle now name to_download s t m n b stored e f =
      rw (meta_or_raise-ok s m stored, e, f)

  module _ (now : ℕ) (name : String) (to_download : Bool) (s : Collection Index)
      (m : CollectionMeta) (answer : Exported) (stored : s.meta ≡ some m)
      (done : (export_collection_bundle host now name to_download s).0 ≡ ok answer) where
    export-IsExportedFrom :
        IsExportedFrom s m (export_collection_bundle host now name to_download s).1
    unfolding export_collection_bundle meta_or_raise
    export-IsExportedFrom = by_checked (check_export host m s) refl (check_export-state m s)
      where
        by_checked :
            (c : Result ℕ × Collection Index)
            → check_export host m s ≡ c
            → (c.1.meta ≡ s.meta) × (c.1.tables ≡ s.tables) × (c.1.dir ≡ s.dir)
            → IsExportedFrom s m (export_collection_bundle host now name to_download s).1
        by_checked (err x, t) e k = absurd (ground arith)
        by_checked (ok n, t) e k = by_file t.dir.index refl
          where
            by_file :
                (o : Option (List ℕ))
                → t.dir.index ≡ o
                → IsExportedFrom s m (export_collection_bundle host now name to_download s).1
            by_file none f = absurd (ground arith)
            by_file (some b) f =
                let same = export-place_bundle now name to_download s t m n b stored e f in
                let kept =
                  place_bundle-IsExportedFrom now to_download m n
                    (length (map (row_to_dict host.codec) (export_rows t.tables)))
                    (bundle_of now name m t b) t answer (k.0 ∙ stored)
                    (sym (ap (λ r. r.0) same) ∙ done) in
                subst (λ r. IsExportedFrom s m r.1) (sym same)
                  (record {
                    entry = kept.entry;
                    stored = kept.stored;
                    rows = kept.rows;
                    index = kept.index;
                    content = kept.content;
                    tables = kept.tables ∙ k.1;
                  })

    -- An export that returns allows a purge after it: a purge that asks for an export then returns, with
    -- the number of rows that were exported.
    pub export-purge :
        (later : ℕ)
        → let t = (export_collection_bundle host now name to_download s).1 in
          (purge_collection_data later true t).0 ≡ ok (count s.tables)
    export-purge later =
        let x = export-IsExportedFrom in
        exported_purge later (export_collection_bundle host now name to_download s).1 x.entry
          x.stored
          (covered_lem x.entry (record { rows = x.rows; index = x.index; content = x.content }))
        ∙ ap (λ u. ok (count u)) x.tables
