-- ===== src/Meta/Store/Reload.antt =====
-- What a restart reads of the file that the metadata store wrote (src/python/hypervec_meta_store.py).
use hyper_vector.Common.{
  ℕ, String, ◌≡◌, refl, sym, ap, ◌∙◌, Bool, true, false, some, Option, List, [], ◌∷◌, map, All,
}
use hyper_vector.Common.Dict.{Dict}
use hyper_vector.Common.Result.{ok}
use hyper_vector.Common.Sort.{codes_le, insert_by, sort_by}
use hyper_vector.Names.{codes}
use hyper_vector.Json.{Json, obj, Fields, end, field}
use hyper_vector.Json.Sorted.{insert_field, sort_json, sort_fields}
use hyper_vector.Bundle.Lines.{Text}
use hyper_vector.Meta.Defs.{CollectionMeta}
use hyper_vector.Meta.Codec.{IsStorable}
use hyper_vector.Meta.Codec.Sorted.{sorted, from_dict-sort_fields}
use hyper_vector.Meta.Store.{MetaStore, dump, parse, parse_meta, load, flush}

abbrev pub name_codes : String × CollectionMeta → List ℕ
name_codes e = codes e.0

-- The entries in the order of their names, each with the keys of its documents in order.
abbrev pub sorted_entries : Dict String CollectionMeta → Dict String CollectionMeta
sorted_entries d = sort_by name_codes (map (λ e. (e.0, sorted e.1)) d)

-- A document, and the entries that are read of it.
abbrev IsParsed : ℕ → Fields → Dict String CollectionMeta → Type 0
IsParsed now end [] = Unit
IsParsed now end (e ∷ ms) = ⊥
IsParsed now (field k j r) [] = ⊥
IsParsed now (field k j r) (e ∷ ms) = (k ≡ e.0) × (parse_meta now j ≡ ok e.1) × IsParsed now r ms

parse-IsParsed :
    (now : ℕ) (r : Fields) (ms : Dict String CollectionMeta)
    → IsParsed now r ms
    → parse now r ≡ ok ms
unfolding parse
parse-IsParsed now end [] h = refl
parse-IsParsed now end (e ∷ ms) h = elim h [ ]
parse-IsParsed now (field k j r) [] h = elim h [ ]
parse-IsParsed now (field k j r) (e ∷ ms) h =
    rw (h.1, parse-IsParsed now r ms h.2) (ap (λ i. ok ((i, e.1) ∷ ms)) h.0)

insert_field-IsParsed :
    (now : ℕ) (k : String) (j : Json) (m : CollectionMeta) (r : Fields)
    (ms : Dict String CollectionMeta)
    → parse_meta now j ≡ ok m
    → IsParsed now r ms
    → IsParsed now (insert_field k j r) (insert_by name_codes (k, m) ms)
unfolding insert_field insert_by
insert_field-IsParsed now k j m end [] a h = (refl, a, tt)
insert_field-IsParsed now k j m end (e ∷ ms) a h = elim h [ ]
insert_field-IsParsed now k j m (field i w r) [] a h = elim h [ ]
insert_field-IsParsed now k j m (field i w r) (e ∷ ms) a h =
    by_order (codes_le (codes k) (codes i)) refl (ap (λ n. codes_le (codes k) (codes n)) h.0)
      (insert_field-IsParsed now k j m r ms a h.2)
  where
    by_order :
        (b : Bool)
        → codes_le (codes k) (codes i) ≡ b
        → codes_le (codes k) (codes i) ≡ codes_le (codes k) (codes e.0)
        → IsParsed now (insert_field k j r) (insert_by name_codes (k, m) ms)
        → IsParsed now (insert_field k j (field i w r)) (insert_by name_codes (k, m) (e ∷ ms))
    by_order true f same rest = rw (f, sym same ∙ f) (refl, a, h)
    by_order false f same rest = rw (f, sym same ∙ f) (h.0, h.1, rest)

sort_fields-IsParsed :
    (now : ℕ) (d : Dict String CollectionMeta)
    → All (λ e. IsStorable e.1) d
    → IsParsed now (sort_fields (dump d)) (sorted_entries d)
unfolding sort_fields sort_json dump sort_by
sort_fields-IsParsed now [] h = tt
sort_fields-IsParsed now ((k, m) ∷ d) h =
    insert_field-IsParsed now k _ (sorted m) _ _ (from_dict-sort_fields now m h.0)
      (sort_fields-IsParsed now d h.1)

-- A restart loses nothing: loading the file that `_flush` wrote gives every entry that was in memory under its
-- name, in the order of the names, and equal to what it was but for the order of the keys in its schema and
-- its index parameters. All entries are storable, and `json.loads` reads what `json.dumps` wrote of the
-- document: the same document with the keys of every object in order.
pub load-flush :
    (dumps : Json → Text) (loads : Text → Option Json) (now : ℕ) (s : MetaStore)
    → loads (dumps (obj (dump s.entries))) ≡ some (sort_json (obj (dump s.entries)))
    → All (λ e. IsStorable e.1) s.entries
    → load loads now (flush dumps s).path
      ≡ ok (record { entries = sorted_entries s.entries; path = (flush dumps s).path })
unfolding load flush sort_json
load-flush dumps loads now s reads h =
    rw
      (
        reads,
        parse-IsParsed now (sort_fields (dump s.entries)) (sorted_entries s.entries)
            (sort_fields-IsParsed now s.entries h),
      )
      refl
