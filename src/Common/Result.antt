-- ===== src/Common/Result.antt =====
-- Python functions that return a value or raise, and change nothing.
use mathlib.Core.Path.{◌≡◌, refl}
use mathlib.Core.Bool.{Bool, true, false}
use mathlib.Core.Option.{Option, none, some}
use mathlib.Core.List.{List, [], ◌∷◌}
use native.Mathlib.Omega.{arith}
use hyper_vector.Common.Lists.{length}

-- The exceptions that the modelled code raises, or lets through.
pub data Error : Type 0 where
  value_error conflict_error file_not_found file_exists operational_error key_error type_error
        runtime_error :
      Error

pub data Result {ℓ} (A : Type ℓ) : Type ℓ where
  ok : A → Result A
  err : Error → Result A

abbrev pub or_raise {ℓ} : {A : Type ℓ} → Error → Option A → Result A
or_raise e none = err e
or_raise e (some a) = ok a

module _ {ℓ κ} {A : Type ℓ} {B : Type κ} where
  infixl 5 ◌>>=◌
  -- An exception skips what follows.
  abbrev pub ◌>>=◌ : Result A → (A → Result B) → Result B
  err x >>= next = err x
  ok a >>= next = next a

module _ {κ} {B : Type κ} where
  infixl 5 ◌>>◌
  abbrev pub ◌>>◌ : Result (Unit {0}) → Result B → Result B
  check >> rest = check >>= λ u. rest

-- `if bad: raise e`
abbrev pub refuse : Bool → Error → Result (Unit {0})
refuse false x = ok tt
refuse true x = err x

-- [f(x) for x in xs]
unfoldable pub traverse : {A B : Type 0} → (A → Result B) → List A → Result (List B)
traverse f [] = ok []
traverse f (x ∷ xs) = do y ← f x; ys ← traverse f xs; ok (y ∷ ys)

-- What a call that returned has run: its first part returned, and the rest returned from there.
pub >>=-eq-ok {ℓ κ} :
    {A : Type ℓ} {B : Type κ} (r : Result A) (next : A → Result B) {b : B}
    → (r >>= next) ≡ ok b
    → (a : A) × (r ≡ ok a) × (next a ≡ ok b)
>>=-eq-ok (err x) next e = cc
>>=-eq-ok (ok a) next e = (a, refl, e)

-- A check that let the code go on.
pub refuse-eq-ok {ℓ} :
    {B : Type ℓ} (b : Bool) (e : Error) (k : Result B) {r : B}
    → (refuse b e >> k) ≡ ok r
    → (b ≡ false) × (k ≡ ok r)
refuse-eq-ok true e k h = cc
refuse-eq-ok false e k h = (refl, h)

pub ok_inj {ℓ} : {A : Type ℓ} {a b : A} → ok a ≡ ok b → a ≡ b
ok_inj h = cc

pub length-traverse :
    {A B : Type 0} (f : A → Result B) (xs : List A) (ys : List B)
    → traverse f xs ≡ ok ys
    → length ys ≡ length xs
unfolding traverse
length-traverse f [] ys h = ground arith
length-traverse f (x ∷ xs) ys h =
    let (y, _, h₁) = >>=-eq-ok (f x) _ h in
    let (zs, e, made) = >>=-eq-ok (traverse f xs) _ h₁ in
    ground (arith, length-traverse f xs zs e, made)
