-- ===== src/Common/Sort.antt =====
-- `sorted`, which src/python/hypervec_server_engine.py takes of names and entries.
use Prim.Native.Nat.{ℕ}
use mathlib.Core.Bool.{Bool, true, false, ◌&&◌, ◌||◌}
use mathlib.Core.List.{List, [], ◌∷◌}
use hyper_vector.Common.Tests.{if◌then◌else◌, ◌==◌, ltb}

-- The order of Python's texts.
unfoldable pub codes_le : List ℕ → List ℕ → Bool
codes_le [] y = true
codes_le (a ∷ x) [] = false
codes_le (a ∷ x) (b ∷ y) = ltb a b || (a == b && codes_le x y)

module _ {A : Type 0} (key : A → List ℕ) where
  unfoldable pub insert_by : A → List A → List A
  unfolding codes_le
  insert_by a [] = a ∷ []
  insert_by a (b ∷ l) = if codes_le (key a) (key b) then a ∷ b ∷ l else b ∷ insert_by a l

  -- sorted(items, key=key)
  unfoldable pub sort_by : List A → List A
  unfolding insert_by
  sort_by [] = []
  sort_by (a ∷ l) = insert_by a (sort_by l)
