-- ===== src/Engine/Schema.antt =====
-- The field names of a collection, read off its schema (src/python/hypervec_server_engine.py:
-- `_schema_fields`, `_field_name_by_datatype`, `_id_field`, `_vector_field`, `_text_field`). `repr` is
-- `str` of the values that are no text and no number. An entry of `fields` is a dictionary.
use hyper_vector.Common.{
  String, Bool, false, Option, none, some, List, [], ◌∷◌, str_eq, if◌then◌else◌,
}
use hyper_vector.Common.Dict.{codes_eq}
use hyper_vector.Json.{Json, null, str, arr, obj, Items, nil, cons, Fields, get, truthy}
use hyper_vector.Json.Text.{py_str, to_upper}
use hyper_vector.Names.{codes}

unfoldable pub dicts : Items → List Fields
dicts nil = []
dicts (cons (obj d) xs) = d ∷ dicts xs
dicts (cons _ xs) = dicts xs

-- list(schema.get("fields") or [])
unfoldable pub schema_fields : Fields → List Fields
unfolding dicts get
schema_fields schema = elim (get schema "fields") [
  | none ↦ []
  | some v ↦ elim v [ arr xs ↦ dicts xs | _ ↦ [] ]
]

abbrev get_or : Fields → String → Json → Json
get_or d k v = elim (get d k) [ none ↦ v | some w ↦ w ]

module _ (repr : Json → String) where
  abbrev name_of : Fields → String
  name_of entry = py_str repr (get_or entry "name" null)

  -- The first field that passes a test.
  unfoldable pub find_field : (Fields → Bool) → List Fields → Option String
  unfolding py_str get
  find_field p [] = none
  find_field p (entry ∷ fields) =
      let rest = find_field p fields in if p entry then some (name_of entry) else rest

  abbrev pub or_default : Option String → String → String
  or_default none default = default
  or_default (some name) default = name

  unfoldable pub field_name_by_datatype : List Fields → String → String → String
  unfolding find_field to_upper
  field_name_by_datatype fields datatype default =
      or_default
        (find_field
          (λ entry.
            codes_eq (to_upper (codes (py_str repr (get_or entry "datatype" (str "")))))
              (to_upper (codes datatype)))
          fields)
        default

  -- The three choices at the call of `create_collection`, where the argument is
  -- `{"schema": schema}`.
  unfoldable pub id_field : Fields → String
  unfolding schema_fields find_field truthy
  id_field schema =
      or_default
        (find_field (λ entry. truthy (get_or entry "is_primary" (Json.bool false)))
          (schema_fields schema))
        "id"

  unfoldable pub vector_field : Fields → String
  unfolding schema_fields field_name_by_datatype
  vector_field schema = field_name_by_datatype (schema_fields schema) "FLOAT_VECTOR" "vector"

  -- The name is "contents" on both branches.
  unfoldable pub text_field : Fields → String
  unfolding schema_fields find_field
  text_field schema =
      or_default (find_field (λ entry. str_eq (name_of entry) "contents") (schema_fields schema))
        "contents"
