-- ===== src/Common/Exec.antt =====
-- Python methods that change an object and may raise. What was written before a raise stays
-- written, so the state comes back beside the error too.
use mathlib.Core.Bool.{Bool, true, false}
use mathlib.Core.Option.{Option, none, some}
use mathlib.Core.Path.{◌≡◌, refl}
use hyper_vector.Common.Result.{Error, Result, ok, err}

abbrev pub Exec : Type 0 → Type 0 → Type 0
Exec S A = S → Result A × S

module _ {S A : Type 0} where
  abbrev pub pure : A → Exec S A
  pure a s = (ok a, s)

  abbrev pub raise : Error → Exec S A
  raise e s = (err e, s)

  abbrev pub lift : Result A → Exec S A
  lift r s = (r, s)

  abbrev pub gets : (S → A) → Exec S A
  gets f s = (ok (f s), s)

  abbrev pub or_raise : Error → Option A → Exec S A
  or_raise e none = raise e
  or_raise e (some a) = pure a

module _ {S : Type 0} where
  abbrev pub modify : (S → S) → Exec S (Unit {0})
  modify f s = (ok tt, f s)

  -- `if bad: raise e`
  abbrev pub refuse : Bool → Error → Exec S (Unit {0})
  refuse true e s = (err e, s)
  refuse false e s = (ok tt, s)

module _ {S A B : Type 0} where
  abbrev pub continue : Result A → (A → Exec S B) → Exec S B
  continue (ok a) f s = f a s
  continue (err e) f s = (err e, s)

  infixl 5 ◌>>=◌ ◌>>◌
  abbrev pub ◌>>=◌ : Exec S A → (A → Exec S B) → Exec S B
  ◌>>=◌ m f s = let (r, s') = m s in continue r f s'

  abbrev pub ◌>>◌ : Exec S A → Exec S B → Exec S B
  m >> n = m >>= λ _. n

  -- A method that returned: its first part returned, and so did the rest, from where that left off.
  pub bind-eq-ok :
      (m : Exec S A) (f : A → Exec S B) (s : S) {b : B}
      → ((m >>= f) s).0 ≡ ok b
      → (a : A) × ((m s).0 ≡ ok a) × ((m >>= f) s ≡ f a (m s).1) × ((f a (m s).1).0 ≡ ok b)
  bind-eq-ok m f s {b = b} h = by_result (m s).0 refl h
    where
      by_result :
          (r : Result A)
          → (m s).0 ≡ r
          → (continue r f (m s).1).0 ≡ ok b
          → (a : A) × ((m s).0 ≡ ok a) × ((m >>= f) s ≡ f a (m s).1) × ((f a (m s).1).0 ≡ ok b)
      by_result (ok a) e h = (a, e, rw e refl, h)
      by_result (err x) e h = cc

  pub then-eq-ok :
      (m : Exec S A) (n : Exec S B) (s : S) {b : B}
      → ((m >> n) s).0 ≡ ok b
      → (a : A) × ((m s).0 ≡ ok a) × ((m >> n) s ≡ n (m s).1) × ((n (m s).1).0 ≡ ok b)
  then-eq-ok m n s h = bind-eq-ok m (λ _. n) s h

-- A method that keeps a predicate, whether it returns or raises.
abbrev pub Keeps : {S A : Type 0} → (S → Type 0) → Exec S A → Type 0
Keeps {S} P m = (s : S) → P s → P (m s).1

module _ {S A B : Type 0} (P : S → Type 0) where
  pub continue-Keeps :
      (r : Result A) (f : A → Exec S B) (s : S)
      → P s
      → ((a : A) → Keeps P (f a))
      → P (continue r f s).1
  continue-Keeps (ok a) f s h k = k a s h
  continue-Keeps (err e) f s h k = h

  pub bind-Keeps :
      (m : Exec S A) (f : A → Exec S B) → Keeps P m → ((a : A) → Keeps P (f a)) → Keeps P (m >>= f)
  bind-Keeps m f k l s h = continue-Keeps (m s).0 f (m s).1 (k s h) l

pub refuse-Keeps :
    {S : Type 0} (P : S → Type 0) (b : Bool) (e : Error) → Keeps P (refuse {S = S} b e)
refuse-Keeps P true e s h = h
refuse-Keeps P false e s h = h
