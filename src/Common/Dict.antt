-- ===== src/Common/Dict.antt =====
-- Python's `dict`, in insertion order: a write to a key that is there keeps its place, a new key
-- goes last. Keys are texts, or lists of code points.
use Prim.Native.Nat.{ℕ}
use Prim.Native.String.{String}
use mathlib.Core.Path.{◌≡◌, refl, sym, subst, ◌∙◌}
use mathlib.Core.Logic.{◌≢◌, ◌↔◌, inl, inr}
use mathlib.Core.Bool.{Bool, true, false, ◌&&◌, false≢true}
use mathlib.Core.Option.{Option, none, some}
use mathlib.Core.List.{List, [], ◌∷◌, map}
use native.Mathlib.Omega.{arith}
use text.Mathlib.Text.{◌==◌ as str_eq}
use text.Mathlib.TextEquality.{eq_iff}
use hyper_vector.Common.Tests.{if◌then◌else◌, ◌==◌, Bool-cases}

pub record Key (K : Type 0) : Type 0 where
  pub beq : K → K → Bool
  pub beq_iff : (a b : K) → (beq a b ≡ true) ↔ (a ≡ b)

instance abbrev pub string_key : Key String
string_key = record { beq = str_eq; beq_iff = eq_iff }

unfoldable pub codes_eq : List ℕ → List ℕ → Bool
codes_eq [] [] = true
codes_eq (a ∷ x) (b ∷ y) = (a == b) && codes_eq x y
codes_eq _ _ = false

codes_eq→eq : (x y : List ℕ) → codes_eq x y ≡ true → x ≡ y
unfolding codes_eq
codes_eq→eq [] [] h = refl
codes_eq→eq [] (b ∷ y) h = cc
codes_eq→eq (a ∷ x) [] h = cc
codes_eq→eq (a ∷ x) (b ∷ y) h = ground (arith, codes_eq→eq x y)

codes_eq_refl : (x : List ℕ) → codes_eq x x ≡ true
unfolding codes_eq
codes_eq_refl [] = refl
codes_eq_refl (a ∷ x) = ground (arith, codes_eq_refl x)

pub codes_eq_iff : (x y : List ℕ) → (codes_eq x y ≡ true) ↔ (x ≡ y)
codes_eq_iff x y = (codes_eq→eq x y, λ e. rw e (codes_eq_refl y))

instance abbrev pub codes_key : Key (List ℕ)
codes_key = record { beq = codes_eq; beq_iff = codes_eq_iff }

abbrev pub Dict : Type 0 → Type 0 → Type 0
Dict K V = List (K × V)

abbrev pub values : {K V : Type 0} → Dict K V → List V
values d = map (λ e. e.1) d

module _ {K V : Type 0} ⦃key : Key K⦄ where
  -- d.get(k)
  unfoldable pub get : Dict K V → K → Option V
  get [] k = none
  get ((j, v) ∷ d) k = if key.beq j k then some v else get d k

  -- d[k] = v
  unfoldable pub put : Dict K V → K → V → Dict K V
  put [] k v = (k, v) ∷ []
  put ((j, w) ∷ d) k v = if key.beq j k then (j, v) ∷ d else (j, w) ∷ put d k v

  -- d.pop(k, None)
  unfoldable pub remove : Dict K V → K → Dict K V
  remove [] k = []
  remove ((j, w) ∷ d) k = let rest = remove d k in if key.beq j k then rest else (j, w) ∷ rest

  -- A slot that may be empty: write it, or take the key away.
  unfoldable pub put? : Dict K V → K → Option V → Dict K V
  put? d k none = remove d k
  put? d k (some v) = put d k v

  get-put :
      (d : Dict K V) (k : K) (v : V) (j : K)
      → get (put d k v) j ≡ (if key.beq k j then some v else get d j)
  unfolding get put
  get-put [] k v j = refl
  get-put ((i, w) ∷ d) k v j =
      ground (arith, get-put d k v j, key.beq_iff i k, key.beq_iff i j, key.beq_iff k j)

  get-remove :
      (d : Dict K V) (k j : K) → get (remove d k) j ≡ (if key.beq k j then none else get d j)
  unfolding get remove
  get-remove [] k j = ground arith
  get-remove ((i, w) ∷ d) k j =
      ground (arith, get-remove d k j, key.beq_iff i k, key.beq_iff i j, key.beq_iff k j)

  pub get-put_self : (d : Dict K V) (k : K) (v : V) → get (put d k v) k ≡ some v
  get-put_self d k v = rw get-put (ground (arith, key.beq_iff k k))

  pub get-put_ne : (d : Dict K V) (k : K) (v : V) (j : K) → k ≢ j → get (put d k v) j ≡ get d j
  get-put_ne d k v j h = rw get-put (ground (arith, key.beq_iff k j))

  pub get-put?_self : (d : Dict K V) (k : K) (o : Option V) → get (put? d k o) k ≡ o
  unfolding put?
  get-put?_self d k none = rw get-remove (ground (arith, key.beq_iff k k))
  get-put?_self d k (some v) = get-put_self d k v

  pub get-put?_ne :
      (d : Dict K V) (k : K) (o : Option V) (j : K) → k ≢ j → get (put? d k o) j ≡ get d j
  unfolding put?
  get-put?_ne d k none j h = rw get-remove (ground (arith, key.beq_iff k j))
  get-put?_ne d k (some v) j h = get-put_ne d k v j h

  -- Writing back what is there.
  pub get-put?_same : (d : Dict K V) (k j : K) → get (put? d k (get d k)) j ≡ get d j
  get-put?_same d k j = elim (Bool-cases (key.beq k j)) [
    | inl e ↦
        subst (λ i. get (put? d k (get d k)) i ≡ get d i) ((key.beq_iff k j).0 e)
          (get-put?_self d k (get d k))
    | inr e ↦ get-put?_ne d k (get d k) j (λ p. false≢true (sym e ∙ (key.beq_iff k j).1 p))
  ]
