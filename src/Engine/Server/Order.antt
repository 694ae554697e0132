-- ===== src/Engine/Server/Order.antt =====
-- The two lists of all collections: `sorted` in `list_collections` and `describe_collections` of
-- src/python/hypervec_server_engine.py.
use mathlib.Core.List.{Perm, map-map}
use mathlib.Core.List.Perm
use hyper_vector.Common.{
  ℕ, ◌≡◌, refl, ap, ◌∙◌, true, false, List, [], ◌∷◌, map, Bool-cases, inl, inr, arith,
}
use hyper_vector.Common.Dict
use hyper_vector.Names.{codes}
use hyper_vector.Common.Sort.{codes_le, insert_by, sort_by}
use hyper_vector.Engine.Server.{Server, list_collections, describe_collections}

codes_le_total : (x y : List ℕ) → codes_le x y ≡ false → codes_le y x ≡ true
unfolding codes_le
codes_le_total [] y h = cc
codes_le_total (a ∷ x) [] h = refl
codes_le_total (a ∷ x) (b ∷ y) h = ground (arith, codes_le_total x y)

module _ {A : Type 0} (key : A → List ℕ) where
  -- Each item's key comes before the next one's, or is the same.
  abbrev pub IsSorted : List A → Type 0
  IsSorted [] = Unit
  IsSorted (a ∷ []) = Unit
  IsSorted (a ∷ b ∷ l) = (codes_le (key a) (key b) ≡ true) × IsSorted (b ∷ l)

  insert_by-IsSorted : (a : A) (l : List A) → IsSorted l → IsSorted (insert_by key a l)
  unfolding insert_by
  insert_by-IsSorted a [] h = tt
  insert_by-IsSorted a (b ∷ []) h = ground (arith, codes_le_total (key a) (key b))
  insert_by-IsSorted a (b ∷ c ∷ l) h = ground (
    arith,
    codes_le_total (key a) (key b),
    codes_le_total (key a) (key c),
    insert_by-IsSorted a (c ∷ l) h.1,
  )

  sort_by-IsSorted : (l : List A) → IsSorted (sort_by key l)
  unfolding sort_by
  sort_by-IsSorted [] = tt
  sort_by-IsSorted (a ∷ l) = insert_by-IsSorted a (sort_by key l) (sort_by-IsSorted l)

  insert_by-perm : (a : A) (l : List A) → Perm (insert_by key a l) (a ∷ l)
  unfolding insert_by
  insert_by-perm a [] = Perm.refl (a ∷ [])
  insert_by-perm a (b ∷ l) = elim (Bool-cases (codes_le (key a) (key b))) [
    | inl e ↦ rw e (Perm.refl (a ∷ b ∷ l))
    | inr e ↦ rw e (Perm.trans (Perm.cons b (insert_by-perm a l)) (Perm.swap a b l))
  ]

  sort_by-perm : (l : List A) → Perm (sort_by key l) l
  unfolding sort_by
  sort_by-perm [] = Perm.refl []
  sort_by-perm (a ∷ l) =
      Perm.trans (insert_by-perm a (sort_by key l)) (Perm.cons a (sort_by-perm l))

module _ {A B : Type 0} (f : A → B) (key : B → List ℕ) where
  map-insert_by :
      (a : A) (l : List A) → map f (insert_by (λ x. key (f x)) a l) ≡ insert_by key (f a) (map f l)
  unfolding insert_by
  map-insert_by a [] = refl
  map-insert_by a (b ∷ l) = elim (Bool-cases (codes_le (key (f a)) (key (f b)))) [
    | inl e ↦ rw e refl
    | inr e ↦ rw e (ap (◌∷◌ (f b)) (map-insert_by a l))
  ]

  map-sort_by : (l : List A) → map f (sort_by (λ x. key (f x)) l) ≡ sort_by key (map f l)
  unfolding sort_by
  map-sort_by [] = refl
  map-sort_by (a ∷ l) =
      map-insert_by a (sort_by (λ x. key (f x)) l) ∙ ap (insert_by key (f a)) (map-sort_by l)

-- `list_collections` lists the names of all entries, each as often as it is there, in the order of
-- Python's texts; and `describe_collections` describes the collections in the order of that list.
pub list_collections-IsSorted :
    {Index : Type 0} (s : Server Index)
    → IsSorted codes (list_collections s)
      × Perm (list_collections s) (map (λ m. m.collection_name) (Dict.values s.metas))
      × (map (λ d. d.meta.collection_name) (describe_collections s) ≡ list_collections s)
unfolding list_collections describe_collections
list_collections-IsSorted s =
    let names = map (λ m. m.collection_name) (Dict.values s.metas) in
    (
      sort_by-IsSorted codes names,
      sort_by-perm codes names,
      map-map _ _ (sort_by (λ m. codes m.collection_name) (Dict.values s.metas))
          ∙ map-sort_by (λ m. m.collection_name) codes (Dict.values s.metas),
    )
