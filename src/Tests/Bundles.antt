-- ===== src/Tests/Bundles.antt =====
-- A bundle of one row, its lines, its labels and the time in its ZIP entries.
use hyper_vector.Common.{ℕ, ◌≡◌, ◌<◌, refl, Option, none, some, List, [], ◌∷◌, length}
use hyper_vector.Common.Result.{ok, traverse}
use hyper_vector.Json.{Fields, end, get}
use hyper_vector.Library.{Codec}
use hyper_vector.Bundle.Archive.{BundleFile, create_bundle, read_bundle, manifest_of, is_bomb}
use hyper_vector.Bundle.Archive.RoundTrip.{IsExported, read_bundle-create_bundle}
use hyper_vector.Bundle.Lines.{is_line_break, strip, join_lines, parse_rows}
use hyper_vector.Bundle.Labels.{validate_index_label_mapping, vector_fits}
use hyper_vector.Bundle.Labels.Laws.{Resolves, IsNumbered, validate-Resolves}
use hyper_vector.Bundle.ZipTime.{DateTime}
use hyper_vector.Scalar.{scalar_of}
use hyper_vector.Engine.State.{Collection, Host}
use hyper_vector.Engine.Import.{
  import_collection_bundle, restore, read_source, check_manifest, prepare_or_withdraw, commit,
}
use hyper_vector.Engine.Import.Laws.{import-cache}
use hyper_vector.Tests.Samples.{codec, codec-IsCodec, meta, row, host, Index, collection, doc}

abbrev rows : List Fields
rows = row ∷ []

abbrev manifest : Fields
manifest = manifest_of (codec end row) 9 "docs" (2 ∷ 1 ∷ []) rows meta

abbrev sample : Codec
sample = codec manifest row

numbered : IsNumbered (some 2) 0 rows
unfolding get vector_fits
numbered = (record { labelled = refl; fits = refl }, tt)

exported : IsExported sample (codec-IsCodec manifest row) 9 "docs" (2 ∷ 1 ∷ []) rows meta
unfolding is_line_break strip manifest_of create_bundle is_bomb get join_lines
exported = (
  (
    record {
      line = record { unbroken = (refl, tt); stripped = refl; nonempty = λ e. cc };
      loaded = refl;
    },
    tt,
  ),
  numbered,
  record { first = refl; second = refl; third = refl; small = refl },
  refl,
)

read_bundle-create_bundle_example :
    read_bundle sample (some (create_bundle sample 9 "docs" (2 ∷ 1 ∷ []) rows meta).1)
    ≡ ok (manifest, 2 ∷ 1 ∷ [], rows)
unfolding manifest_of
read_bundle-create_bundle_example =
    read_bundle-create_bundle sample (codec-IsCodec manifest row) 9 "docs" (2 ∷ 1 ∷ []) rows meta
      exported

validated : validate_index_label_mapping rows 1 (some 2) "implicit_sequential" ≡ ok tt
unfolding validate_index_label_mapping get
validated = refl

validate-Resolves_example :
    (length rows ≡ 1) × ((i : ℕ) → i < 1 → (j : ℕ) × Resolves (some 2) rows i j)
validate-Resolves_example = validate-Resolves rows 1 (some 2) "implicit_sequential" validated

abbrev too_late : DateTime
too_late = record { year = 2200; month = 5; day = 6; hour = 7; minute = 8; second = 60 }

-- The sample collection with its scalars in memory, and the bundle with one other row.
abbrev cached : Collection Index
cached = record collection { cache = some ((0, scalar_of (doc 0 "a" [])) ∷ []) }

abbrev bundle : Option BundleFile
bundle = some (create_bundle sample 9 "docs" (2 ∷ 1 ∷ []) rows meta).1

abbrev importer : Host Index
importer = record host { codec = sample }

imported :
    (import_collection_bundle importer 10 "docs" bundle none "replace" cached).0
    ≡ ok (record {
      total = 1;
      dim = some 2;
      version = 5;
      index_checksum = some "sha256:two";
      index_size_bytes = some 2;
    })
unfolding import_collection_bundle restore create_bundle parse_rows join_lines traverse get
    manifest_of read_source check_manifest prepare_or_withdraw commit
imported = refl

import-cache_example :
    (import_collection_bundle importer 10 "docs" bundle none "replace" cached).1.cache
    ≡ cached.cache
import-cache_example = import-cache importer 10 "docs" bundle none "replace" cached
