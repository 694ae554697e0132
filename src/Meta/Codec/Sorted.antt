-- ===== src/Meta/Codec/Sorted.antt =====
-- Reading back a document whose keys were sorted (src/python/hypervec_meta_store.py).
use hyper_vector.Common.{ℕ, String, ◌≡◌, refl, false, Bool-cases, inl, inr, Option, none, some}
use hyper_vector.Common.Result.{ok}
use hyper_vector.Common.Sort.{codes_le}
use hyper_vector.Names.{codes}
use hyper_vector.Json.{Json, Fields, end, field, get, is_empty}
use hyper_vector.Json.Sorted.{insert_field, sort_json, sort_fields}
use hyper_vector.Meta.Defs.{ImportTxn, CollectionMeta}
use hyper_vector.Meta.Codec.{
  opt_int, opt_str, nullable_int, nullable_str, txn_to_dict, txn_of_dict, opt_txn, nullable_txn,
  to_dict, from_dict, IsStorable,
}
use hyper_vector.Meta.Codec.RoundTrip.{
  bind_ok, state_round_trip, state_named, truthy_str_lem, truthy_int_lem, empty_str_lem,
  empty_fields_lem, truthy_fields_lem,
}

-- The entry with the keys of its two documents in order.
unfoldable pub sorted : CollectionMeta → CollectionMeta
unfolding sort_fields
sorted m = record m { schema = sort_fields m.schema; index_params = sort_fields m.index_params }

nullable_int_sorted : (o : Option ℕ) → nullable_int (sort_json (opt_int o)) ≡ ok o
unfolding sort_json
nullable_int_sorted none = refl
nullable_int_sorted (some n) = refl

nullable_str_sorted : (o : Option String) → nullable_str (sort_json (opt_str o)) ≡ ok o
unfolding sort_json
nullable_str_sorted none = refl
nullable_str_sorted (some s) = refl

txn_sorted : (t : ImportTxn) → txn_of_dict (sort_fields (txn_to_dict t)) ≡ ok t
unfolding txn_of_dict txn_to_dict get sort_fields sort_json
txn_sorted t =
    bind_ok _ (state_round_trip t.prev_state) (
      bind_ok _ (nullable_int_sorted t.dim)
        (bind_ok _ (nullable_str_sorted t.source_checksum) refl))

nullable_txn_sorted : (o : Option ImportTxn) → nullable_txn (sort_json (opt_txn o)) ≡ ok o
unfolding sort_json sort_fields
nullable_txn_sorted none = refl
nullable_txn_sorted (some t) = bind_ok _ (txn_sorted t) refl

insert_field-nonempty : (k : String) (v : Json) (d : Fields) → is_empty (insert_field k v d) ≡ false
unfolding insert_field
insert_field-nonempty k v end = refl
insert_field-nonempty k v (field j w d) = elim (Bool-cases (codes_le (codes k) (codes j))) [
  | inl e ↦ rw e refl
  | inr e ↦ rw e refl
]

sort_fields-nonempty : (d : Fields) → is_empty d ≡ false → is_empty (sort_fields d) ≡ false
unfolding sort_fields
sort_fields-nonempty end h = h
sort_fields-nonempty (field k v d) h = insert_field-nonempty k (sort_json v) (sort_fields d)

pub from_dict-sort_fields :
    (now : ℕ) (m : CollectionMeta)
    → IsStorable m
    → from_dict now (sort_fields (to_dict m)) ≡ ok (sorted m)
unfolding from_dict to_dict sort_fields sort_json sorted
from_dict-sort_fields now m v = bind_ok _ (empty_fields_lem (sort_fields m.schema)) (
    bind_ok _
      (truthy_fields_lem (sort_fields m.index_params) _
        (sort_fields-nonempty m.index_params v.has_params))
      (bind_ok _ (truthy_str_lem m.id_field _ v.id_named) (
        bind_ok _ (truthy_str_lem m.vector_field _ v.vector_named) (
          bind_ok _ (truthy_str_lem m.text_field _ v.text_named) (
            bind_ok _ (nullable_int_sorted m.dim) (
              bind_ok _ (empty_str_lem m.index_path) (
                bind_ok _ (nullable_str_sorted m.index_checksum) (
                  bind_ok _ (nullable_int_sorted m.index_size_bytes) (
                    bind_ok _ (truthy_int_lem m.created_at _ v.created) (
                      bind_ok _ (truthy_int_lem m.updated_at _ v.updated) (
                        bind_ok _ (nullable_int_sorted m.flushed_at) (
                          bind_ok _ (truthy_str_lem _ _ (state_named m.data_state)) (
                            bind_ok _ (state_round_trip m.data_state) (
                              bind_ok _ (nullable_int_sorted m.last_known_total) (
                                bind_ok _ (nullable_int_sorted m.last_exported_at) (
                                  bind_ok _ (nullable_int_sorted m.last_purged_at) (
                                    bind_ok _ (nullable_str_sorted m.bundle_format) (
                                      bind_ok _ (nullable_int_sorted m.exported_data_version) (
                                        bind_ok _ (nullable_str_sorted m.exported_bundle_checksum) (
                                          bind_ok _ (nullable_int_sorted m.exported_index_version) (
                                            bind_ok _
                                              (nullable_str_sorted m.exported_index_checksum)
                                              (bind_ok _ (nullable_txn_sorted m.import_txn)
                                                refl))))))))))))))))))))))
