-- ===== src/Tests/Engines.antt =====
-- Inserts, flushes, searches, exports, imports, recoveries and purges of the sample collection.
use hyper_vector.Common.{
  ℕ, ◌+◌, ◌≡◌, ◌≢◌, refl, arith, true, false, String, Option, none, some, List, [], ◌∷◌, ◌⊎◌,
}
use hyper_vector.Common.Result.{Result, ok, err, conflict_error, value_error, traverse}
use hyper_vector.Json.{Json, int, str, arr, obj, Fields, end, field, get, is_empty}
use hyper_vector.Meta.{CollectionMeta, ready, purged, importing}
use hyper_vector.Names.{codes}
use hyper_vector.Scalar.{count, get_by_row_ids}
use hyper_vector.Scalar.Laws.{HasTable}
use hyper_vector.Engine.State.{Collection, empty_dir}
use hyper_vector.Engine.Import.{Restore, stage_rows, stage_index, prepare_or_withdraw, is_pending}
use hyper_vector.Engine.Import.Laws.{IsWithdrawn, prepare_or_withdraw-IsWithdrawn}
use hyper_vector.Engine.Recover.{restart}
use hyper_vector.Engine.Recover.Crash.{Recovered, crash-Recovered}
use hyper_vector.Engine.Recover.Stops.{stopped}
use hyper_vector.Engine.Recover.Gaps.{left_over-restored, no_index-mixed}
use hyper_vector.Engine.Purge.{purge_collection_data}
use hyper_vector.Engine.Purge.Laws.{IsCovered, purge-IsCovered, purge-erases}
use hyper_vector.Engine.Insert.{insert}
use hyper_vector.Engine.Insert.Laws.{IsInserted, insert-IsInserted}
use hyper_vector.Engine.Flush.{Flushed, flush}
use hyper_vector.Engine.Flush.Laws.{IsFlushed, flush-IsFlushed, flush-check_export}
use hyper_vector.Engine.Export.{check_export, export_collection_bundle}
use hyper_vector.Engine.Export.Laws.{refill-no_export}
use hyper_vector.Engine.Filter.{filter_match, get_codes}
use hyper_vector.Engine.Filter.Clauses.{joined}
use hyper_vector.Engine.Filter.Laws.{all_equal, filter_match-joined}
use hyper_vector.Json.Text.{py_str}
use hyper_vector.Bundle.Lines.{is_space}
use hyper_vector.Engine.Search.{Matrix, search, answer, Hit}
use hyper_vector.Engine.Search.Laws.{AreAnswers, search-AreAnswers}
use hyper_vector.Engine.IndexConfig.{index_spec, has_deprecated}
use hyper_vector.Engine.IndexConfig.Sound.{IsSound, index_spec-IsSound}
use hyper_vector.Library.{ivf_pq, l2}
use hyper_vector.Tests.Samples.{
  Index, host, hypervec-IsHypervec, meta, table, collection, restored, row, items,
}

abbrev repr : Json → String
repr v = "?"

abbrev truncate : String → Result ℕ
truncate s = ok 16

idle : ready ≢ importing
idle = λ e. cc

staged :
    (stage_rows host 10 restored.rows (stage_index host restored.index_bytes collection)).0 ≡ ok 1
unfolding stage_rows stage_index traverse
staged = refl

crash-Recovered_example : Recovered host 10 11 meta restored collection 4 collection
crash-Recovered_example =
    crash-Recovered host 10 11 meta restored collection (2 ∷ 2 ∷ []) 1 4 refl idle refl refl refl
      staged (omega arith)

-- The index has one vector, and the bundle two rows.
abbrev torn : Restore
torn = record restored { total = 2; rows = row ∷ row ∷ [] }

failed : (prepare_or_withdraw host 10 meta torn collection).0 ≡ err conflict_error
unfolding prepare_or_withdraw
failed = refl

prepare_or_withdraw-IsWithdrawn_example :
    IsWithdrawn host 10 meta torn collection (prepare_or_withdraw host 10 meta torn collection).1
unfolding is_pending
prepare_or_withdraw-IsWithdrawn_example =
    prepare_or_withdraw-IsWithdrawn host 10 meta torn collection conflict_error refl refl failed

purge-IsCovered_example :
    (purge_collection_data 10 true collection ≡ (err conflict_error, collection)) ⊎ IsCovered meta
purge-IsCovered_example = purge-IsCovered 10 collection meta refl

purged_two : (purge_collection_data 10 true collection).0 ≡ ok 2
unfolding purge_collection_data
purged_two = refl

purge-erases_example :
    let r = purge_collection_data 10 true collection in
    (2 ≡ count collection.tables)
    × (r.1.dir ≡ empty_dir)
    × (r.1.tables ≡ record { live = none; staging = none })
    × (r.1.loaded ≡ none)
    × ((m' : CollectionMeta) × (r.1.meta ≡ some m')
        × (m'.collection_name ≡ meta.collection_name)
        × (m'.data_state ≡ purged)
        × (m'.total ≡ 0)
        × (m'.data_version ≡ meta.data_version + 1)
        × ¬ IsCovered m')
purge-erases_example = purge-erases 10 collection meta true 2 refl purged_two

abbrev no_index : Collection Index
no_index = record collection { dir = empty_dir; loaded = none }

staged_no_index :
    (stage_rows host 10 restored.rows (stage_index host restored.index_bytes no_index)).0 ≡ ok 1
unfolding stage_rows stage_index traverse
staged_no_index = refl

no_index-mixed_example :
    let t = restart host 11 (stopped host 10 meta restored 5 no_index) in
    (t.dir.index ≡ some (2 ∷ 1 ∷ [])) × (t.tables.live ≡ some table)
no_index-mixed_example =
    no_index-mixed host 10 11 meta restored no_index 1 refl staged_no_index refl refl

abbrev left_over : Collection Index
left_over = record collection { dir = record collection.dir { pre_import = some (2 ∷ 9 ∷ []) } }

staged_left_over :
    (stage_rows host 10 restored.rows (stage_index host restored.index_bytes left_over)).0 ≡ ok 1
unfolding stage_rows stage_index traverse
staged_left_over = refl

left_over-restored_example :
    let t = restart host 11 (stopped host 10 meta restored 3 left_over) in
    (t.dir.index ≡ some (2 ∷ 9 ∷ [])) × (t.tables.live ≡ some table)
left_over-restored_example =
    left_over-restored host 10 11 meta restored left_over 1 refl staged_left_over (2 ∷ 9 ∷ []) refl

-- One document with a vector of the right dimension.
abbrev batch : List Fields
batch = field "vector" (arr (items (5 ∷ 6 ∷ []))) (field "text" (str "new") end) ∷ []

has_table : HasTable collection.tables.live
has_table = (((omega arith, refl), tt), (tt, tt))

inserted : (insert host 10 batch collection).0 ≡ ok (1, 3)
unfolding insert
inserted = refl

insert-IsInserted_example :
    IsInserted host 10 batch collection meta (insert host 10 batch collection).1
    × (◌≡◌ {A = ℕ × ℕ} (1, 3) (1, 3))
unfolding count
insert-IsInserted_example =
    insert-IsInserted host 10 batch collection meta (1, 3) refl has_table inserted

abbrev flushed : Flushed
flushed = record {
  total = 2;
  dim = some 2;
  version = 5;
  index_checksum = some "sha256:two";
  index_size_bytes = some 2;
}

flush_two : (flush host 10 collection).0 ≡ ok flushed
unfolding flush traverse
flush_two = refl

flush-IsFlushed_example : IsFlushed host 10 collection meta (flush host 10 collection).1
flush-IsFlushed_example = flush-IsFlushed host 10 collection meta flushed refl flush_two

flush-check_export_example :
    let t = (flush host 10 collection).1 in
    (e : CollectionMeta) × (t.meta ≡ some e) × (check_export host e t ≡ (ok (count t.tables), t))
flush-check_export_example =
    flush-check_export host hypervec-IsHypervec 10 collection meta flushed refl refl flush_two

-- The collection after a purge.
abbrev purged_meta : CollectionMeta
purged_meta = record meta { data_state = purged; total = 0; data_version = 4; index_version = 0 }

abbrev purged_collection : Collection Index
purged_collection = record {
  meta = some purged_meta;
  tables = record { live = none; staging = none };
  dir = empty_dir;
  loaded = none;
  cache = none;
}

refilled : (insert host 10 batch purged_collection).0 ≡ ok (1, 1)
unfolding insert
refilled = refl

flushed_again :
    (flush host 11 (insert host 10 batch purged_collection).1).0 ≡ ok (record flushed { total = 1 })
unfolding flush insert traverse
flushed_again = refl

refill-no_export_example :
    let t = (flush host 11 (insert host 10 batch purged_collection).1).1 in
    export_collection_bundle host 11 "docs" true t ≡ (err conflict_error, t)
refill-no_export_example =
    refill-no_export host 10 11 batch "docs" true purged_collection purged_meta (1, 1)
      (record flushed { total = 1 }) refl refl tt refilled flushed_again

abbrev filter_row : Fields
filter_row = field "source" (str "manual") (field "doc_id" (str "42") end)

abbrev clauses : List (List ℕ × List ℕ)
clauses = (codes "source", codes "manual") ∷ (codes "_x1", codes "None") ∷ []

filter_match-joined_example :
    filter_match repr filter_row (joined clauses) ≡ ok (all_equal repr filter_row clauses)
unfolding is_space
filter_match-joined_example = filter_match-joined repr filter_row clauses (
  (
    (refl, (refl, (refl, (refl, (refl, (refl, tt)))))),
    (
      (refl, refl),
      ((refl, refl), ((refl, refl), ((refl, refl), ((refl, refl), ((refl, refl), tt))))),
    ),
  ),
  (
    (
      (refl, (refl, (refl, tt))),
      ((refl, refl), ((refl, refl), ((refl, refl), ((refl, refl), tt)))),
    ),
    tt,
  ),
)

two_clauses : joined clauses ≡ codes "source == \"manual\" and _x1 == \"None\""
two_clauses = refl

both_hold : all_equal repr filter_row clauses ≡ true
unfolding get_codes py_str
both_hold = refl

passes : filter_match repr filter_row (codes "source == 'manual' AND doc_id == 42") ≡ ok true
unfolding filter_match
passes = refl

fails_early : filter_match repr filter_row (codes "doc_id==\"43\" and nonsense") ≡ ok false
unfolding filter_match
fails_early = refl

is_refused : filter_match repr filter_row (codes "doc_id==\"42\" and nonsense") ≡ err value_error
unfolding filter_match
is_refused = refl

abbrev query : Option Matrix
query = some (record { columns = 2; rows = (1 ∷ 2 ∷ []) ∷ [] })

abbrev answers : List (List Hit)
answers = (record { id = "a"; distance = 5; entity = field "id" (str "a") end } ∷ []) ∷ []

searched :
    (search host query 1 end ("id" ∷ []) (codes "source == 'manual'") collection).0 ≡ ok answers
unfolding search traverse answer get_by_row_ids
searched = refl

search-AreAnswers_example :
    (◌≢◌ {A = ℕ} 1 0)
    × AreAnswers host query 1 end
        ("id" ∷ [])
        (codes "source == 'manual'")
        (search host query 1 end ("id" ∷ []) (codes "source == 'manual'") collection).1
        answers
search-AreAnswers_example =
    search-AreAnswers host query 1 end ("id" ∷ []) (codes "source == 'manual'") collection answers
      searched

abbrev config : Fields
config = field "index_type" (str "IVFPQ") (
    field "metric_type" (str "L2")
      (field "params" (obj (field "nlist" (int 4) (field "m_pq" (str "+2") end))) end))

chosen : index_spec repr truncate 8 config ≡ ok (ivf_pq 8 4 2 8 l2)
unfolding index_spec
chosen = refl

index_spec-IsSound_example :
    IsSound 8 (ivf_pq 8 4 2 8 l2)
    × ((params : Fields)
        → get config "params" ≡ some (obj params)
        → is_empty params ≡ false
        → has_deprecated params ≡ false)
index_spec-IsSound_example = index_spec-IsSound truncate repr 8 config (ivf_pq 8 4 2 8 l2) chosen
