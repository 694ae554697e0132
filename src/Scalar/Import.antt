-- ===== src/Scalar/Import.antt =====
-- Restoring, staging and purging of rows (src/python/hypervec_scalar_store.py).
use hyper_vector.Common.{
  ℕ, Bool, true, false, none, some, List, [], map, if◌then◌else◌, length, ◌==◌,
}
use hyper_vector.Common.Result.{Result, ok, err, operational_error, value_error}
use hyper_vector.Scalar.Defs.{Doc, Tables, insert_rows, ensure_table, drop_table, count}

-- r.get("created_at") or now
abbrev or_now : ℕ → ℕ → ℕ
or_now now t = if t == 0 then now else t

unfoldable pub restamp : ℕ → Doc → Doc
restamp now r = record r {
  created_at = or_now now r.created_at;
  updated_at = or_now now r.updated_at;
}

-- The rows of `executemany`, on the live table. There is no rollback: the rows before the one that
-- clashes stay in the open transaction.
unfoldable pub fill_live : ℕ → List Doc → Tables → Result ℕ × Tables
unfolding insert_rows restamp
fill_live now rows s = elim s.live [
  | none ↦ (err operational_error, s)
  | some t ↦
      let (t', done) = insert_rows (map (restamp now) rows) t in
      (if done then ok (length rows) else err value_error, record s { live = some t' })
]

unfoldable pub import_rows : ℕ → Bool → List Doc → Tables → Result ℕ × Tables
unfolding fill_live drop_table ensure_table
import_rows now replace rows s =
    fill_live now rows (ensure_table (if replace then drop_table s else s))

-- The table is dropped; the count from before is the summary.
unfoldable pub purge_collection_rows : Tables → ℕ × Tables
unfolding count drop_table
purge_collection_rows s = (count s, drop_table s)

-- A new staging table with the rows, up to the first that clashes. The live table is not touched.
unfoldable pub import_rows_to_staging : ℕ → List Doc → Tables → Result ℕ × Tables
unfolding insert_rows restamp
import_rows_to_staging now rows s =
    let (t, done) = insert_rows (map (restamp now) rows) [] in
    (if done then ok (length rows) else err value_error, record s { staging = some t })

-- DROP live, RENAME staging to live, in one transaction: it is rolled back if there is no staging
-- table.
unfoldable pub commit_staging : Tables → Result (Unit {0}) × Tables
commit_staging s = elim s.staging [
  | none ↦ (err operational_error, s)
  | some t ↦ (ok tt, record { live = some t; staging = none })
]

unfoldable pub rollback_staging : Tables → Tables
rollback_staging s = record s { staging = none }

unfoldable pub has_staging : Tables → Bool
has_staging s = elim s.staging [ none ↦ false | some t ↦ true ]
