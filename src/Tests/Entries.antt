-- ===== src/Tests/Entries.antt =====
-- Creating, removing and uploading to the sample collection.
use hyper_vector.Common.{ℕ, ◌≡◌, refl, true, none, some, List, [], ◌∷◌, map}
use hyper_vector.Common.Result.{ok, err, file_exists}
use hyper_vector.Json.{Fields, end}
use hyper_vector.Meta.{CollectionMeta}
use hyper_vector.Scalar.{count, export_rows}
use hyper_vector.Bundle.Archive.{BundleFile, create_bundle}
use hyper_vector.Engine.Export.{
  Exported, row_to_dict, export_collection_bundle, place_bundle, check_export, check_bundle,
}
use hyper_vector.Engine.Export.Laws.{export-purge}
use hyper_vector.Engine.Flush.{Flushed}
use hyper_vector.Engine.Upload.{upload_index}
use hyper_vector.Engine.Upload.Laws.{IsUploaded, upload-IsUploaded}
use hyper_vector.Engine.Purge.{purge_collection_data}
use hyper_vector.Engine.Lifecycle.{
  created_entry, meta_response, create_collection, drop_collection, drop_entry,
}
use hyper_vector.Engine.Lifecycle.Laws.{IsFresh, drop-create-IsFresh, interrupted-drop-create}
use hyper_vector.Tests.Samples.{host, meta, schema, collection, tables}

drop-create-IsFresh_example :
    let t = (drop_collection collection).1 in
    let u = create_collection host.codec.repr 10 "docs" "/data/docs" schema end t in
    (u.0 ≡ ok (meta_response (created_entry host.codec.repr 10 "docs" "/data/docs" schema end)))
    × IsFresh host 10 "docs" "/data/docs" schema end u.1
    × (u.1.tables.staging ≡ collection.tables.staging)
    × (create_collection host.codec.repr 10 "docs" "/data/docs" schema end u.1
        ≡ (err file_exists, u.1))
drop-create-IsFresh_example = drop-create-IsFresh host 10 "docs" "/data/docs" schema end collection

interrupted-drop-create_example :
    let u =
      create_collection host.codec.repr 10 "docs" "/data/docs" schema end (drop_entry collection) in
    (count u.1.tables ≡ 2)
    × (u.1.dir ≡ collection.dir)
    × ((m : CollectionMeta) × (u.1.meta ≡ some m) × (m.total ≡ 0))
unfolding count
interrupted-drop-create_example =
    interrupted-drop-create host 10 "docs" "/data/docs" schema end collection

-- An index file of three bytes, of dimension 2 with one vector.
abbrev sent : List ℕ
sent = 2 ∷ 1 ∷ 0 ∷ []

abbrev uploaded : Flushed
uploaded = record {
  total = 2;
  dim = some 2;
  version = 7;
  index_checksum = some "sha256:other";
  index_size_bytes = some 3;
}

upload_seven : (upload_index host 10 (some sent) (some 7) none collection).0 ≡ ok uploaded
unfolding upload_index
upload_seven = refl

upload-IsUploaded_example :
    IsUploaded host 10
      (some sent)
      (some 7)
      none
      collection
      meta
      uploaded
      (upload_index host 10 (some sent) (some 7) none collection).1
upload-IsUploaded_example =
    upload-IsUploaded host 10 (some sent) (some 7) none collection meta uploaded refl upload_seven

-- The sample's export: the bundle of its two rows.
abbrev bundle : Fields × BundleFile
bundle =
    create_bundle host.codec 10 "docs" (2 ∷ 2 ∷ [])
      (map (row_to_dict host.codec) (export_rows tables)) meta

abbrev pub exported : Exported
exported = record {
  file = bundle.1;
  version = 4;
  bundle_checksum = "sha256:other";
  manifest = bundle.0;
}

pub export_two : (export_collection_bundle host 10 "docs" true collection).0 ≡ ok exported
unfolding export_collection_bundle place_bundle check_export check_bundle create_bundle
export_two = refl

export-purge_example :
    let t = (export_collection_bundle host 10 "docs" true collection).1 in
    (purge_collection_data 11 true t).0 ≡ ok 2
unfolding count
export-purge_example = export-purge host 10 "docs" true collection meta exported refl export_two 11
