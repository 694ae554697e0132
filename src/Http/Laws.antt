-- ===== src/Http/Laws.antt =====
-- What a client of src/python/hypervec_http_server.py can rely on.
use hyper_vector.Common.{
  ℕ, ◌≡◌, refl, sym, ap, subst, ◌∙◌, String, Bool, true, Option, none, some, List, arith,
}
use hyper_vector.Common.Dict
use hyper_vector.Common.Dict.{string_key}
use hyper_vector.Common.Result.{Result, ok, err}
use hyper_vector.Names.{codes, validate_collection_name}
use hyper_vector.Meta.{CollectionMeta}
use hyper_vector.Scalar.{count}
use hyper_vector.Engine.State.{Collection, Host, Method, meta_or_raise}
use hyper_vector.Engine.Server.{Server, view, put_back, call, call_checked, unlink_bundle}
use hyper_vector.Engine.Server.Frame.{view-put_back, view-put_back_same}
use hyper_vector.Engine.Export.{Exported, export_collection_bundle}
use hyper_vector.Engine.Export.Laws.{export-purge}
use hyper_vector.Engine.Purge.{purge_collection_data}
use hyper_vector.Engine.Answer.{Answer, download, purged_rows}
use hyper_vector.Http.{Response, sent, response, attempt}
use hyper_vector.Common.Exec.{bind-Keeps}
use hyper_vector.Engine.Lifecycle
use hyper_vector.Engine.Upload
use hyper_vector.Http.Router
use hyper_vector.Http.Router.{
  Route, health, list_collections, describe_collections, has_collection, describe_collection,
  get_version, download_index, sync_check, handle,
}
use hyper_vector.Http.Routes
use hyper_vector.Http.Routes.{download_bundle, purge_data, bundle_file}

view-unlink_bundle :
    {Index : Type 0} (name : String) (s : Server Index)
    → view name (unlink_bundle name s)
      ≡ record (view name s) { dir = record (view name s).dir { export_tmp = none } }
unfolding view unlink_bundle
view-unlink_bundle name s = rw (Dict.get-put_self s.dirs name _) refl

-- A purge looks at the entry and the rows.
purge-same :
    {Index : Type 0} (now : ℕ) (exported : Bool) (c d : Collection Index)
    → c.meta ≡ d.meta
    → c.tables ≡ d.tables
    → (purge_collection_data now exported c).0 ≡ (purge_collection_data now exported d).0
unfolding purge_collection_data
purge-same now exported c d e f = ground arith

module _ {Index : Type 0} (host : Host Index) (name : String) where
  export-has_entry :
      (now : ℕ) (c : Collection Index) (x : Exported)
      → (export_collection_bundle host now name true c).0 ≡ ok x
      → (m : CollectionMeta) × (c.meta ≡ some m)
  unfolding export_collection_bundle meta_or_raise
  export-has_entry now c x done = by_entry c.meta refl
    where
      by_entry : (o : Option CollectionMeta) → c.meta ≡ o → (m : CollectionMeta) × (c.meta ≡ some m)
      by_entry none e = absurd (ground arith)
      by_entry (some m) e = (m, e)

  -- A download of the bundle, and what a purge answers after it.
  abbrev sends : Result Exported → Server Index → Response Answer × Server Index
  sends r t = elim r [
    | ok x ↦ (sent (download (bundle_file host name x)), unlink_bundle name t)
    | err e ↦ (response download (err e), t)
  ]

  abbrev downloaded : ℕ → Result (List ℕ) → Server Index → Response Answer × Server Index
  downloaded now v s =
      let (r, t) = call_checked v name (export_collection_bundle host now name true) s in sends r t

  abbrev purged : ℕ → Result (List ℕ) → Server Index → Response Answer
  purged later v t =
      response purged_rows (call_checked v name (purge_collection_data later true) t).0

  downloaded-purged :
      (now later : ℕ) (v : Result (List ℕ)) (s : Server Index) (a : Answer)
      → (downloaded now v s).0 ≡ sent a
      → purged later v (downloaded now v s).1 ≡ sent (purged_rows (count (view name s).tables))
  unfolding response
  downloaded-purged now later (err e) s a done = absurd (ground arith)
  downloaded-purged now later (ok n) s a done =
      by_export (export_collection_bundle host now name true (view name s)).0 refl done
    where
      c : Collection Index
      c = (export_collection_bundle host now name true (view name s)).1

      by_export :
          (r : Result Exported)
          → (export_collection_bundle host now name true (view name s)).0 ≡ r
          → (downloaded now (ok n) s).0 ≡ sent a
          → purged later (ok n) (downloaded now (ok n) s).1
            ≡ sent (purged_rows (count (view name s).tables))
      by_export (err e) same h = absurd (ground arith)
      by_export (ok x) same h =
          let (m, stored) = export-has_entry now (view name s) x same in
          let seen = view-unlink_bundle name (put_back name c s) in
          let kept = view-put_back name c s in
          subst
            (λ r.
              purged later (ok n) (sends r (put_back name c s)).1
              ≡ sent (purged_rows (count (view name s).tables)))
            (sym same)
            (ap (response purged_rows) (
              purge-same later true (view name (unlink_bundle name (put_back name c s))) c
                (ap (λ v. v.meta) seen ∙ ap (λ v. v.meta) kept)
                (ap (λ v. v.tables) seen ∙ ap (λ v. v.tables) kept)
              ∙ export-purge host now name true (view name s) m x stored same later))

  -- After a download of the bundle that was answered with the file, a purge with no body, which asks for an
  -- export, is answered with the number of rows that the collection had. No request comes in between.
  pub purge_data-download_bundle :
      (now later : ℕ) (s : Server Index) (a : Answer)
      → (download_bundle host name now s).0 ≡ sent a
      → (purge_data name later none (download_bundle host name now s).1).0
        ≡ sent (purged_rows (count (view name s).tables))
  unfolding download_bundle purge_data attempt
  purge_data-download_bundle now later s a done =
      downloaded-purged now later (validate_collection_name (codes name)) s a done

-- The routes of GET, except the download of a bundle, which records the export in the entry; and the sync
-- check.
abbrev pub Reads : Route → Type 0
Reads health = Unit
Reads list_collections = Unit
Reads describe_collections = Unit
Reads (has_collection name) = Unit
Reads (describe_collection name) = Unit
Reads (get_version name) = Unit
Reads (download_index name) = Unit
Reads (sync_check name version checksum) = Unit
Reads _ = ⊥

describe-state : {Index : Type 0} (c : Collection Index) → (Lifecycle.describe_collection c).1 ≡ c
unfolding Lifecycle.describe_collection
describe-state c = ground arith

version-state : {Index : Type 0} (c : Collection Index) → (Lifecycle.get_version c).1 ≡ c
unfolding Lifecycle.get_version
version-state c = ground arith

path-state :
    {Index : Type 0} (host : Host Index) (c : Collection Index)
    → (Upload.index_path_for_download host c).1 ≡ c
unfolding Upload.index_path_for_download
path-state host c = ground arith

sync_check-state :
    {Index : Type 0} (host : Host Index) (version : ℕ) (checksum : Option String)
    (c : Collection Index)
    → (Upload.sync_check host version checksum c).1 ≡ c
unfolding Upload.sync_check
sync_check-state host version checksum c = ground arith

-- The same state, of every collection.
abbrev pub Same : {Index : Type 0} → Server Index → Server Index → Type 0
Same s t = (b : String) → view b t ≡ view b s

call-Same :
    {Index A : Type 0} (name : String) (method : Method Index A)
    → ((c : Collection Index) → (method c).1 ≡ c)
    → (s : Server Index) → Same s (call name method s).1
unfolding call
call-Same name method still s = by_name (validate_collection_name (codes name))
  where
    by_name : (v : Result (List ℕ)) → Same s (call_checked v name method s).1
    by_name (ok n) b =
        ap (λ c. view b (put_back name c s)) (still (view name s)) ∙ view-put_back_same name b s
    by_name (err e) b = refl

-- The requests that only ask, which are those of GET but the download of a bundle, and the sync check,
-- change nothing: every collection is as it was.
pub handle-Same :
    {Index : Type 0} (host : Host Index) (index_path : String → String) (now : ℕ) (r : Route)
    (s : Server Index)
    → Reads r
    → Same s (handle host index_path now r s).1
unfolding handle attempt Routes.health Routes.list_collections Routes.describe_collections
    Routes.has_collection Routes.describe_collection Routes.get_version Routes.download_index
    Routes.sync_check
handle-Same host index_path now health s h b = refl
handle-Same host index_path now list_collections s h b = refl
handle-Same host index_path now describe_collections s h b = refl
handle-Same host index_path now (has_collection name) s h b =
    call-Same name Lifecycle.has_collection (λ c. refl) s b
handle-Same host index_path now (describe_collection name) s h b =
    call-Same name Lifecycle.describe_collection describe-state s b
handle-Same host index_path now (get_version name) s h b =
    call-Same name Lifecycle.get_version version-state s b
handle-Same host index_path now (download_index name) s h b =
    bind-Keeps (Same s) (call name (Upload.index_path_for_download host)) _
      (λ t same c. call-Same name _ (path-state host) t c ∙ same c)
      (λ content.
        bind-Keeps (Same s) (call name Lifecycle.get_version) _
          (λ t same c. call-Same name Lifecycle.get_version version-state t c ∙ same c)
          (λ version t same. same))
      s (λ c. refl) b
handle-Same host index_path now (sync_check name version checksum) s h b =
    call-Same name _ (sync_check-state host version checksum) s b
handle-Same host index_path now (Router.drop_collection name) s h b = elim h [ ]
handle-Same host index_path now (Router.flush name) s h b = elim h [ ]
handle-Same host index_path now (Router.load_collection name) s h b = elim h [ ]
handle-Same host index_path now (Router.close_collection name) s h b = elim h [ ]
handle-Same host index_path now (Router.download_bundle name) s h b = elim h [ ]
handle-Same host index_path now (Router.create_collection name schema params) s h b = elim h [ ]
handle-Same host index_path now (Router.insert name batch) s h b = elim h [ ]
handle-Same host index_path now (Router.search name q) s h b = elim h [ ]
handle-Same host index_path now (Router.upload_index name x v c) s h b = elim h [ ]
handle-Same host index_path now (Router.upload_bundle name d f c m) s h b = elim h [ ]
handle-Same host index_path now (Router.purge_data name e) s h b = elim h [ ]
