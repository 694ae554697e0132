-- ===== src/Json/Sorted.antt =====
-- A document as `json.dumps` writes it with `sort_keys=True`, in src/python/hypervec_meta_store.py: the keys of
-- every object in order.
use hyper_vector.Common.{String, if◌then◌else◌}
use hyper_vector.Common.Sort.{codes_le}
use hyper_vector.Names.{codes}
use hyper_vector.Json.{
  Json, null, bool, int, neg, real, str, arr, obj, Items, nil, cons, Fields, end, field,
}

unfoldable pub insert_field : String → Json → Fields → Fields
unfolding codes_le
insert_field k v end = field k v end
insert_field k v (field j w d) =
    let rest = insert_field k v d in
    if codes_le (codes k) (codes j) then field k v (field j w d) else field j w rest

unfoldable mutual
  unfolding insert_field

  pub sort_json : Json → Json
  sort_json null = null
  sort_json (bool b) = bool b
  sort_json (int n) = int n
  sort_json (neg n) = neg n
  sort_json (real s) = real s
  sort_json (str s) = str s
  sort_json (arr l) = arr (sort_items l)
  sort_json (obj d) = obj (sort_fields d)

  pub sort_items : Items → Items
  sort_items nil = nil
  sort_items (cons j l) = cons (sort_json j) (sort_items l)

  pub sort_fields : Fields → Fields
  sort_fields end = end
  sort_fields (field k v d) = insert_field k (sort_json v) (sort_fields d)
