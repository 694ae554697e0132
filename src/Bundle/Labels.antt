-- ===== src/Bundle/Labels.antt =====
-- `validate_index_label_mapping` of src/python/hypervec_bundle.py: index label i stands for the row
-- whose `row_id` is i. Every failure is a ValueError.
pub mod Laws
use hyper_vector.Common.{
  ℕ, zero, suc, ◌+◌, ◌≤◌, ◌<◌, ◌≡◌, refl, ap, ◌∙◌, ◌⊎◌, inl, inr, String, Bool, true, false, not,
  ◌&&◌, ◌||◌, Option, none, some, List, [], ◌∷◌, ltb, ◌==◌, str_eq, arith, length, get_elem?,
  Bool-cases, Option-cases, ==_iff,
}
use hyper_vector.Common.Result.{
  Result, ok, value_error, refuse, or_raise, ◌>>=◌, ◌>>◌, >>=-eq-ok, refuse-eq-ok,
}
use hyper_vector.Json.{Json, null, int, arr, Items, nil, cons, Fields, get, length_items}

abbrev pub label_strategy_implicit_sequential : String
label_strategy_implicit_sequential = "implicit_sequential"

-- `_is_int` with the value. A negative id is an int and is refused in the end, since it is not in
-- `range(total)`; it is refused here at once.
unfoldable pub row_id_of : Json → Option ℕ
row_id_of (int n) = some n
row_id_of _ = none

unfoldable pub is_list : Json → Bool
is_list (arr _) = true
is_list _ = false

-- any(isinstance(v, (list, tuple)) for v in vector)
unfoldable pub any_list : Items → Bool
unfolding is_list
any_list nil = false
any_list (cons v vs) = is_list v || any_list vs

abbrev mismatches : Option ℕ → ℕ → Bool
mismatches none n = false
mismatches (some d) n = not (n == d)

-- The `vector` entry of a row: absent, or a list of numbers of the right length.
unfoldable pub vector_fits : Option ℕ → Option Json → Bool
unfolding any_list
vector_fits dim none = true
vector_fits dim (some null) = true
vector_fits dim (some (arr vs)) = not (any_list vs) && not (mismatches dim (length_items vs))
vector_fits dim (some _) = false

unfoldable pub member : ℕ → List ℕ → Bool
member a [] = false
member a (b ∷ s) = a == b || member a s

-- One round of the loop: the row's id, or an error.
unfoldable pub check_row : Option ℕ → List ℕ → Fields → Result ℕ
unfolding row_id_of vector_fits member
check_row dim seen row = do
  value ← or_raise value_error (get row "row_id")
  row_id ← or_raise value_error (row_id_of value)
  refuse (member row_id seen) value_error
  refuse (not (vector_fits dim (get row "vector"))) value_error
  ok row_id

-- The loop; `seen` holds the ids of the rows before.
unfoldable pub check_rows : Option ℕ → List ℕ → List Fields → Result (List ℕ)
unfolding check_row
check_rows dim seen [] = ok seen
check_rows dim seen (row ∷ rows) = do
  row_id ← check_row dim seen row
  check_rows dim (row_id ∷ seen) rows

unfoldable pub all_below : ℕ → List ℕ → Bool
all_below n [] = true
all_below n (a ∷ s) = ltb a n && all_below n s

unfoldable pub covers : ℕ → List ℕ → Bool
unfolding member
covers zero s = true
covers (suc n) s = member n s && covers n s

unfoldable pub validate_index_label_mapping :
    List Fields → ℕ → Option ℕ → String → Result (Unit {0})
unfolding check_rows all_below covers
validate_index_label_mapping rows total dim label_strategy = do
  refuse (not (str_eq label_strategy label_strategy_implicit_sequential)) value_error
  refuse (not (length rows == total)) value_error
  seen ← check_rows dim [] rows
  -- seen != set(range(total))
  refuse (not (all_below total seen && covers total seen)) value_error
  ok tt
