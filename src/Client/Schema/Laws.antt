-- ===== src/Client/Schema/Laws.antt =====
-- How the server (src/python/hypervec_server_engine.py) reads a schema that a client built.
use hyper_vector.Common.{
  ◌≡◌, refl, sym, ap, ◌∙◌, Bool, true, false, String, str_eq, eq_iff, false≢true, Option, none,
  some, List, [], ◌∷◌, ◌++◌, map, append_assoc, if◌then◌else◌, All, append-nil,
}
use hyper_vector.Common.Dict.{codes_eq}
use hyper_vector.Json.{Json, null, bool, str, Fields, end, field, get, put, truthy}
use hyper_vector.Json.Text.{py_str, to_upper}
use hyper_vector.Names.{codes}
use hyper_vector.Engine.Schema
use hyper_vector.Engine.Schema.{
  find_field, or_default, schema_fields, vector_field, id_field, field_name_by_datatype,
}
use hyper_vector.Client.Rest.{dicts}
use hyper_vector.Client.Schema.{CollectionSchema, update, field_row, add_field, schema_dict}

-- A call of `add_field`.
pub record Added : Type 0 where
  pub name : String
  pub datatype : String
  pub kwargs : Fields

abbrev pub add_fields : List Added → CollectionSchema → CollectionSchema
add_fields [] s = s
add_fields (a ∷ l) s = add_fields l (add_field a.name a.datatype a.kwargs s)

abbrev row : Added → Fields
row a = field_row a.name a.datatype a.kwargs

-- A dictionary has a key once.
abbrev pub Unique : Fields → Type 0
Unique end = Unit
Unique (field k v d) = (get d k ≡ none) × Unique d

abbrev pub or_else : Option Json → Option Json → Option Json
or_else (some v) w = some v
or_else none w = w

get-put :
    (d : Fields) (j : String) (v : Json) (k : String)
    → get (put d j v) k ≡ (if str_eq j k then some v else get d k)
unfolding get put
get-put end j v k = refl
get-put (field i w d) j v k =
    by_keys (str_eq i j) (str_eq i k) (str_eq j k) refl refl refl (get-put d j v k)
  where
    by_keys :
        (a b c : Bool)
        → str_eq i j ≡ a
        → str_eq i k ≡ b
        → str_eq j k ≡ c
        → get (put d j v) k ≡ (if str_eq j k then some v else get d k)
        → get (if a then field i v d else field i w (put d j v)) k
          ≡ (if c then some v else if b then some w else get d k)
    by_keys true true true ea eb ec ih = rw eb refl
    by_keys true false false ea eb ec ih = rw eb refl
    by_keys true true false ea eb ec ih =
        absurd (false≢true (sym ec ∙ ap (λ x. str_eq x k) (sym ((eq_iff i j).0 ea)) ∙ eb))
    by_keys true false true ea eb ec ih =
        absurd (false≢true (sym eb ∙ ap (λ x. str_eq x k) ((eq_iff i j).0 ea) ∙ ec))
    by_keys false true true ea eb ec ih =
        absurd (false≢true (sym ea ∙ (eq_iff i j).1 ((eq_iff i k).0 eb ∙ sym ((eq_iff j k).0 ec))))
    by_keys false true false ea eb ec ih = rw eb refl
    by_keys false false true ea eb ec ih = rw (eb, ih, ec) refl
    by_keys false false false ea eb ec ih = rw (eb, ih, ec) refl

get-update :
    (d kwargs : Fields) (k : String)
    → Unique kwargs
    → get (update d kwargs) k ≡ or_else (get kwargs k) (get d k)
unfolding update get
get-update d end k u = refl
get-update d (field j v kwargs) k u =
    get-update (put d j v) kwargs k u.1
    ∙ ap (or_else (get kwargs k)) (get-put d j v k)
    ∙ by_key (str_eq j k) refl
  where
    by_key :
        (c : Bool)
        → str_eq j k ≡ c
        → or_else (get kwargs k) (if c then some v else get d k)
          ≡ or_else (if c then some v else get kwargs k) (get d k)
    by_key true e = rw (ap (get kwargs) (sym ((eq_iff j k).0 e)) ∙ u.0) refl
    by_key false e = refl

add_fields-fields :
    (l : List Added) (s : CollectionSchema) → (add_fields l s).fields ≡ s.fields ++ map row l
unfolding add_field
add_fields-fields [] s = sym (append-nil s.fields)
add_fields-fields (a ∷ l) s =
    add_fields-fields l (add_field a.name a.datatype a.kwargs s)
    ∙ append_assoc s.fields (row a ∷ []) (map row l)

dicts-dicts : (l : List Fields) → Schema.dicts (dicts l) ≡ l
unfolding Schema.dicts
dicts-dicts [] = refl
dicts-dicts (d ∷ l) = ap (◌∷◌ d) (dicts-dicts l)

schema_fields-schema_dict : (s : CollectionSchema) → schema_fields (schema_dict s) ≡ s.fields
unfolding schema_fields schema_dict get
schema_fields-schema_dict s = dicts-dicts s.fields

-- The name of the first field that passes a test.
abbrev pub first : (Added → Bool) → List Added → String → String
first p [] default = default
first p (a ∷ l) default = let rest = first p l default in if p a then a.name else rest

-- Keyword arguments that leave the name and the datatype alone.
pub record IsAdded (a : Added) : Type 0 where
  pub keys : Unique a.kwargs
  pub no_name : get a.kwargs "name" ≡ none
  pub no_datatype : get a.kwargs "datatype" ≡ none

abbrev pub is_vector : Added → Bool
is_vector a = codes_eq (to_upper (codes a.datatype)) (to_upper (codes "FLOAT_VECTOR"))

abbrev pub is_primary : Added → Bool
is_primary a = truthy (elim (get a.kwargs "is_primary") [ none ↦ bool false | some v ↦ v ])

row-name : (a : Added) → IsAdded a → get (row a) "name" ≡ some (str a.name)
unfolding field_row get
row-name a h = get-update _ a.kwargs "name" h.keys ∙ rw h.no_name refl

row-datatype : (a : Added) → IsAdded a → get (row a) "datatype" ≡ some (str a.datatype)
unfolding field_row get
row-datatype a h = get-update _ a.kwargs "datatype" h.keys ∙ rw h.no_datatype refl

or_else-none : (o : Option Json) → or_else o none ≡ o
or_else-none none = refl
or_else-none (some v) = refl

row-primary : (a : Added) → IsAdded a → get (row a) "is_primary" ≡ get a.kwargs "is_primary"
unfolding field_row get
row-primary a h = get-update _ a.kwargs "is_primary" h.keys ∙ or_else-none _

module _ (repr : Json → String) where
  found_or :
      (b : Bool) (written name : String) (o : Option String) (default rest : String)
      → written ≡ name
      → or_default repr o default ≡ rest
      → or_default repr (if b then some written else o) default ≡ (if b then name else rest)
  found_or true written name o default rest e h = e
  found_or false written name o default rest e h = h

  row_name :
      (a : Added)
      → IsAdded a
      → py_str repr (elim (get (row a) "name") [ none ↦ null | some v ↦ v ]) ≡ a.name
  unfolding py_str
  row_name a h = ap (λ o. py_str repr (elim o [ none ↦ null | some v ↦ v ])) (row-name a h)

  find_field-map :
      (p : Fields → Bool) (q : Added → Bool)
      → ((a : Added) → IsAdded a → p (row a) ≡ q a)
      → (l : List Added) → All IsAdded l
      → (default : String)
      → or_default repr (find_field repr p (map row l)) default ≡ first q l default
  unfolding find_field py_str
  find_field-map p q same [] h default = refl
  find_field-map p q same (a ∷ l) h default =
      rw (same a h.0) (
        found_or (q a) _ a.name _ default _ (row_name a h.0)
          (find_field-map p q same l h.1 default))

  row_vector :
      (a : Added)
      → IsAdded a
      → codes_eq
          (to_upper
            (codes (py_str repr (elim (get (row a) "datatype") [ none ↦ str "" | some v ↦ v ]))))
          (to_upper (codes "FLOAT_VECTOR"))
        ≡ is_vector a
  unfolding py_str
  row_vector a h =
      ap
        (λ o.
          codes_eq (to_upper (codes (py_str repr (elim o [ none ↦ str "" | some v ↦ v ]))))
            (to_upper (codes "FLOAT_VECTOR")))
        (row-datatype a h)

  row_primary :
      (a : Added)
      → IsAdded a
      → truthy (elim (get (row a) "is_primary") [ none ↦ bool false | some v ↦ v ]) ≡ is_primary a
  row_primary a h = ap (λ o. truthy (elim o [ none ↦ bool false | some v ↦ v ])) (row-primary a h)

  -- The server takes for the vector field the first one that was added as a FLOAT_VECTOR, in whatever case
  -- of letters, and for the id the first one whose `is_primary` counts as true, of the fields that the
  -- client added to a new schema; without such fields it takes "vector" and "id".
  pub fields-add_fields :
      (l : List Added) (s : CollectionSchema)
      → s.fields ≡ []
      → All IsAdded l
      → (vector_field repr (schema_dict (add_fields l s)) ≡ first is_vector l "vector")
        × (id_field repr (schema_dict (add_fields l s)) ≡ first is_primary l "id")
  unfolding vector_field id_field field_name_by_datatype
  fields-add_fields l s empty h =
      let added =
        schema_fields-schema_dict (add_fields l s)
        ∙ add_fields-fields l s
        ∙ ap (λ f. f ++ map row l) empty in
      (
        ap (λ f. field_name_by_datatype repr f "FLOAT_VECTOR" "vector") added
            ∙ find_field-map _ is_vector row_vector l h "vector",
        ap
              (λ f.
                or_default repr
                  (find_field repr
                    (λ d. truthy (elim (get d "is_primary") [ none ↦ bool false | some v ↦ v ])) f)
                  "id")
              added
            ∙ find_field-map _ is_primary row_primary l h "id",
      )
