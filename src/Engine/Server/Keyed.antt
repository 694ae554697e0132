-- ===== src/Engine/Server/Keyed.antt =====
-- The entries of a server stand under their own names.
use mathlib.Core.List.{Mem, mem-cons, mem-cons_self, mem-cons_of_mem, not-mem-nil}
use mathlib.Core.Logic.Or
use mathlib.Core.HLevel.{⊥_prop}
use mathlib.Core.List.Perm
use hyper_vector.Common.{
  ℕ, String, ◌≡◌, ◌≢◌, ◌↔◌, refl, sym, ◌∙◌, subst, Option, none, some, List, [], ◌∷◌, map, All,
  str_eq, eq_iff, Bool-cases, inl, inr, arith, if◌then◌else◌,
}
use hyper_vector.Common.Dict
use hyper_vector.Common.Dict.{Dict, string_key}
use hyper_vector.Common.Result.{Result, ok, err}
use hyper_vector.Common.Exec.{Keeps}
use hyper_vector.Names.{codes, validate_collection_name}
use hyper_vector.Meta.{CollectionMeta}
use hyper_vector.Engine.State.{Method}
use hyper_vector.Engine.Server.{Server, view, put_back, call, call_checked, list_collections}
use hyper_vector.Engine.Server.Named.{HasName, KeepsName}
use hyper_vector.Engine.Server.Order.{list_collections-IsSorted}

abbrev pub AreKeyed : Dict String CollectionMeta → Type 0
AreKeyed d = All (λ e. e.1.collection_name ≡ e.0) d

-- Every entry has the name that it is stored under.
abbrev pub IsKeyed : {Index : Type 0} → Server Index → Type 0
IsKeyed s = AreKeyed s.metas

get-HasName :
    (d : Dict String CollectionMeta) (name : String) → AreKeyed d → HasName name (Dict.get d name)
unfolding Dict.get
get-HasName [] name h = tt
get-HasName ((k, m) ∷ d) name (e, h) = elim (Bool-cases (str_eq k name)) [
  | inl same ↦ rw same (e ∙ (eq_iff k name).0 same)
  | inr other ↦ rw other (get-HasName d name h)
]

put-AreKeyed :
    (d : Dict String CollectionMeta) (name : String) (m : CollectionMeta)
    → AreKeyed d
    → m.collection_name ≡ name
    → AreKeyed (Dict.put d name m)
unfolding Dict.put
put-AreKeyed [] name m h e = (e, tt)
put-AreKeyed ((k, w) ∷ d) name m (p, h) e = elim (Bool-cases (str_eq k name)) [
  | inl same ↦ rw same (e ∙ sym ((eq_iff k name).0 same), h)
  | inr other ↦ rw other (p, put-AreKeyed d name m h e)
]

remove-AreKeyed :
    (d : Dict String CollectionMeta) (name : String) → AreKeyed d → AreKeyed (Dict.remove d name)
unfolding Dict.remove
remove-AreKeyed [] name h = tt
remove-AreKeyed ((k, w) ∷ d) name (p, h) = elim (Bool-cases (str_eq k name)) [
  | inl same ↦ rw same (remove-AreKeyed d name h)
  | inr other ↦ rw other (p, remove-AreKeyed d name h)
]

put?-AreKeyed :
    (d : Dict String CollectionMeta) (name : String) (o : Option CollectionMeta)
    → AreKeyed d
    → HasName name o
    → AreKeyed (Dict.put? d name o)
unfolding Dict.put?
put?-AreKeyed d name none h e = remove-AreKeyed d name h
put?-AreKeyed d name (some m) h e = put-AreKeyed d name m h e

module _ {Index A : Type 0} where
  -- A call of a method that keeps the name keeps the entries under their names.
  pub call-IsKeyed :
      (name : String) (method : Method Index A)
      → KeepsName name method
      → Keeps (λ s. IsKeyed s) (call name method)
  unfolding call put_back view
  call-IsKeyed name method keeps s h = by_name (validate_collection_name (codes name))
    where
      by_name : (v : Result (List ℕ)) → IsKeyed (call_checked v name method s).1
      by_name (ok n) =
          put?-AreKeyed s.metas name (method (view name s)).1.meta h
            (keeps (view name s) (get-HasName s.metas name h))
      by_name (err e) = h

-- One more entry in front.
mem-entry :
    (k name first : String) (l : List String) (m : CollectionMeta) (o : Option CollectionMeta)
    → first ≡ k
    → Mem name l ↔ (o ≢ none)
    → Mem name (first ∷ l) ↔ ((if str_eq k name then some m else o) ≢ none)
mem-entry k name first l m o own rest = (there, back)
  where
    there : Mem name (first ∷ l) → (if str_eq k name then some m else o) ≢ none
    there here e =
        Or.elim ⊥_prop (mem-cons.0 here)
          (λ head.
            let same : k ≡ name = sym own ∙ sym head in
            absurd (ground (arith, (eq_iff k name).1 same)))
          (λ later. absurd (ground (arith, rest.0 later)))

    back : (if str_eq k name then some m else o) ≢ none → Mem name (first ∷ l)
    back found = elim (Bool-cases (str_eq k name)) [
      | inl same ↦ subst (λ n. Mem n (first ∷ l)) (own ∙ (eq_iff k name).0 same) mem-cons_self
      | inr other ↦ mem-cons_of_mem first (rest.1 (λ e. found (rw other e)))
    ]

-- A name is among those of the entries exactly if there is an entry under it.
mem-values :
    (d : Dict String CollectionMeta) (name : String)
    → AreKeyed d
    → Mem name (map (λ m. m.collection_name) (Dict.values d)) ↔ (Dict.get d name ≢ none)
unfolding Dict.get
mem-values [] name h = (λ m. absurd (not-mem-nil m), λ e. absurd (e refl))
mem-values ((k, m) ∷ d) name (p, h) =
    mem-entry k name m.collection_name _ m _ p (mem-values d name h)

-- A listed name is that of an entry.
pub mem-list_collections :
    {Index : Type 0} (s : Server Index) (name : String)
    → IsKeyed s
    → Mem name (list_collections s) ↔ (Dict.get s.metas name ≢ none)
mem-list_collections s name h =
    let same = Perm.mem_iff (list_collections-IsSorted s).1 in
    let entries = mem-values s.metas name h in
    (λ m. entries.0 (same.0 m), λ e. same.1 (entries.1 e))
