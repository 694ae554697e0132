-- ===== src/Client/Schema.antt =====
-- The schemas and index parameters that a client builds (pyhypervec/pyhypervec/schema.py). A method that
-- changes an object takes it to the changed one. Keyword arguments are a dictionary.
pub mod Laws
use hyper_vector.Common.{String, Bool, List, [], ◌∷◌, ◌++◌, Option, none, some}
use hyper_vector.Json.{Json, bool, str, arr, obj, Fields, end, field, put}
use hyper_vector.Client.Rest.{dicts, fields_or}

pub record CollectionSchema : Type 0 where
  pub auto_id : Bool
  pub enable_dynamic_field : Bool
  pub description : String
  pub fields : List Fields

-- d.update(kwargs)
unfoldable pub update : Fields → Fields → Fields
unfolding put
update d end = d
update d (field k v kwargs) = update (put d k v) kwargs

unfoldable pub field_row : String → String → Fields → Fields
unfolding update
field_row field_name datatype kwargs =
    update (field "name" (str field_name) (field "datatype" (str datatype) end)) kwargs

unfoldable pub add_field : String → String → Fields → CollectionSchema → CollectionSchema
unfolding field_row
add_field field_name datatype kwargs s = record s {
  fields = s.fields ++ field_row field_name datatype kwargs ∷ [];
}

-- CollectionSchema.to_dict
unfoldable pub schema_dict : CollectionSchema → Fields
schema_dict s = field "auto_id" (bool s.auto_id) (
    field "enable_dynamic_field" (bool s.enable_dynamic_field)
      (field "description" (str s.description) (field "fields" (arr (dicts s.fields)) end)))

pub record IndexParams : Type 0 where
  pub indexes : List Fields

unfoldable pub add_index :
    String → String → String → Option Fields → Fields → IndexParams → IndexParams
unfolding update
add_index field_name metric_type index_type params kwargs p = record {
  indexes =
      p.indexes
      ++ update
          (field "field_name" (str field_name) (
            field "metric_type" (str metric_type) (
              field "index_type" (str index_type)
                (field "params" (obj (fields_or end params)) end))))
          kwargs
        ∷ [];
}

-- IndexParams.to_dict
unfoldable pub index_dict : IndexParams → Fields
index_dict p = field "indexes" (arr (dicts p.indexes)) end
