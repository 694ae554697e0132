-- ===== src/Meta/Codec/RoundTrip.antt =====
-- Reading back a document that was written (src/python/hypervec_meta_store.py).
use hyper_vector.Common.{
  ℕ, String, ◌≡◌, ◌≢◌, refl, false, Option, none, some, arith, str_eq, eq_iff, if◌then◌else◌,
}
use hyper_vector.Common.Result.{Result, ok, ◌>>=◌}
use hyper_vector.Json.{Json, int, str, obj, Fields, end, field, get, is_empty, truthy}
use hyper_vector.Meta.Defs.{DataState, ready, purged, importing, invalid, ImportTxn, CollectionMeta}
use hyper_vector.Meta.Codec.{
  state_to_text, state_of_text, opt_int, opt_str, to_int, to_str, to_fields, nullable_int,
  nullable_str, txn_to_dict, txn_of_dict, opt_txn, nullable_txn, to_dict, from_dict, IsStorable,
}

pub state_round_trip : (s : DataState) → state_of_text (state_to_text s) ≡ ok s
unfolding state_of_text state_to_text
state_round_trip ready = refl
state_round_trip purged = refl
state_round_trip importing = refl
state_round_trip invalid = refl

pub state_named : (s : DataState) → str_eq (state_to_text s) "" ≡ false
unfolding state_to_text
state_named ready = refl
state_named purged = refl
state_named importing = refl
state_named invalid = refl

-- One step of a chain whose first part is known to succeed.
pub bind_ok {ℓ κ} :
    {A : Type ℓ} {B : Type κ} {m : Result A} {a : A} (f : A → Result B) {r : Result B}
    → m ≡ ok a
    → f a ≡ r
    → (m >>= f) ≡ r
bind_ok f e h = rw e h

nullable_int_lem : (o : Option ℕ) → nullable_int (opt_int o) ≡ ok o
nullable_int_lem none = refl
nullable_int_lem (some n) = refl

nullable_str_lem : (o : Option String) → nullable_str (opt_str o) ≡ ok o
nullable_str_lem none = refl
nullable_str_lem (some s) = refl

txn_round_trip : (t : ImportTxn) → txn_of_dict (txn_to_dict t) ≡ ok t
unfolding txn_of_dict txn_to_dict get
txn_round_trip t =
    bind_ok _ (state_round_trip t.prev_state)
      (bind_ok _ (nullable_int_lem t.dim) (bind_ok _ (nullable_str_lem t.source_checksum) refl))

nullable_txn_lem : (o : Option ImportTxn) → nullable_txn (opt_txn o) ≡ ok o
nullable_txn_lem none = refl
nullable_txn_lem (some t) = bind_ok _ (txn_round_trip t) refl

pub truthy_str_lem :
    (s : String) (v : Json)
    → str_eq s "" ≡ false
    → to_str (if truthy (str s) then str s else v) ≡ ok s
unfolding truthy
truthy_str_lem s v h = rw h

pub truthy_int_lem :
    (n : ℕ) (v : Json) → n ≢ 0 → to_int (if truthy (int n) then int n else v) ≡ ok n
unfolding truthy
truthy_int_lem n v h = ground arith

-- An empty text is its own default.
pub empty_str_lem : (s : String) → to_str (if truthy (str s) then str s else str "") ≡ ok s
unfolding truthy
empty_str_lem s = ground (arith, eq_iff s "")

pub empty_fields_lem : (d : Fields) → to_fields (if truthy (obj d) then obj d else obj end) ≡ ok d
unfolding truthy
empty_fields_lem end = refl
empty_fields_lem (field k v d) = refl

pub truthy_fields_lem :
    (d : Fields) (v : Json)
    → is_empty d ≡ false
    → to_fields (if truthy (obj d) then obj d else v) ≡ ok d
unfolding truthy
truthy_fields_lem d v h = rw h

-- Reading back the document of a storable entry gives the entry, field for field, whatever the clock
-- shows.
pub from_dict-to_dict :
    (now : ℕ) (m : CollectionMeta) → IsStorable m → from_dict now (to_dict m) ≡ ok m
unfolding from_dict to_dict
from_dict-to_dict now m v = bind_ok _ (empty_fields_lem m.schema) (
    bind_ok _ (truthy_fields_lem m.index_params _ v.has_params) (
      bind_ok _ (truthy_str_lem m.id_field _ v.id_named) (
        bind_ok _ (truthy_str_lem m.vector_field _ v.vector_named) (
          bind_ok _ (truthy_str_lem m.text_field _ v.text_named) (
            bind_ok _ (nullable_int_lem m.dim) (
              bind_ok _ (empty_str_lem m.index_path) (
                bind_ok _ (nullable_str_lem m.index_checksum) (
                  bind_ok _ (nullable_int_lem m.index_size_bytes) (
                    bind_ok _ (truthy_int_lem m.created_at _ v.created) (
                      bind_ok _ (truthy_int_lem m.updated_at _ v.updated) (
                        bind_ok _ (nullable_int_lem m.flushed_at) (
                          bind_ok _ (truthy_str_lem _ _ (state_named m.data_state)) (
                            bind_ok _ (state_round_trip m.data_state) (
                              bind_ok _ (nullable_int_lem m.last_known_total) (
                                bind_ok _ (nullable_int_lem m.last_exported_at) (
                                  bind_ok _ (nullable_int_lem m.last_purged_at) (
                                    bind_ok _ (nullable_str_lem m.bundle_format) (
                                      bind_ok _ (nullable_int_lem m.exported_data_version) (
                                        bind_ok _ (nullable_str_lem m.exported_bundle_checksum) (
                                          bind_ok _ (nullable_int_lem m.exported_index_version) (
                                            bind_ok _ (nullable_str_lem m.exported_index_checksum) (
                                              bind_ok _ (nullable_txn_lem m.import_txn)
                                                refl))))))))))))))))))))))
