-- ===== src/Names/Tables.antt =====
-- `ScalarStore._table` and `_staging_table`, and when two collections share a table.
use hyper_vector.Common.{
  ℕ, ◌≡◌, ◌≢◌, ap, List, ◌∷◌, ◌++◌, map, ◌||◌, ◌==◌, if◌then◌else◌, arith, length, length-append,
  length-map, leb, ◌&&◌, ◌+◌, map-append, append_assoc,
}
use hyper_vector.Names.{codes, is_alnum}

-- c if c.isalnum() or c == "_" else "_"
unfoldable pub safe_char : ℕ → ℕ
unfolding is_alnum
safe_char c = if is_alnum c || c == b'_' then c else b'_'

unfoldable pub table : List ℕ → List ℕ
unfolding safe_char
table name = codes "docs_" ++ map safe_char name

unfoldable pub staging_table : List ℕ → List ℕ
staging_table name = table name ++ codes "__import"

-- SQLite compares the names of tables without regard to the case of ASCII letters.
unfoldable pub fold : ℕ → ℕ
fold c = if leb b'A' c && leb c b'Z' then c + 32 else c

-- The table that a name stands for in the database.
unfoldable pub identifier : List ℕ → List ℕ
unfolding fold
identifier name = map fold name

abbrev pub live_table : List ℕ → List ℕ
live_table name = identifier (table name)

abbrev pub import_table : List ℕ → List ℕ
import_table name = identifier (staging_table name)

-- A collection's staging table is never its own live table.
pub import_table-ne-live_table : (name : List ℕ) → import_table name ≢ live_table name
unfolding staging_table identifier
import_table-ne-live_table name e = absurd (
    omega (
      arith,
      length-append (table name) (codes "__import"),
      length-map (table name ++ codes "__import") fold,
      length-map (table name) fold,
      ap length e,
    ))

pub import_table-live_table :
    (name : List ℕ) → import_table name ≡ live_table name ++ codes "__import"
unfolding staging_table identifier
import_table-live_table name = map-append fold (table name) (codes "__import")

table-hyphen : (x y : List ℕ) → table (x ++ b'-' ∷ y) ≡ table (x ++ b'_' ∷ y)
unfolding table
table-hyphen x y = simp map-append

table-import-suffix : (name : List ℕ) → table (name ++ codes "__import") ≡ staging_table name
unfolding table staging_table
table-import-suffix name = simp (map-append, append_assoc)

-- Two names share tables if they differ in a hyphen against an underscore; and the live table of the
-- collection `<name>__import` is the staging table of the collection `<name>`.
pub table-shared :
    (name x y : List ℕ)
    → (table (x ++ b'-' ∷ y) ≡ table (x ++ b'_' ∷ y))
      × (table (name ++ codes "__import") ≡ staging_table name)
table-shared name x y = (table-hyphen x y, table-import-suffix name)
