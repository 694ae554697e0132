-- ===== src/Json/Text/Decimal.antt =====
-- Python's `str` of a number, against the value of its digits.
use hyper_vector.Common.{
  ℕ, zero, suc, ◌+◌, ◌-◌, ◌*◌, ◌/◌, ◌%◌, ◌<◌, ◌≤◌, ◌≡◌, refl, ap, ◌∙◌, Bool, true, false, String,
  List, [], ◌∷◌, ◌==◌, arith, All, if◌then◌else◌,
}
use Prim.Native.Char.{code}
use hyper_vector.Names.{codes}
use hyper_vector.Json.Text.{digit, decimal, decimal_from}

-- The value of a text of digits, behind those of `n`.
abbrev pub value_from : ℕ → List ℕ → ℕ
value_from n [] = n
value_from n (d ∷ s) = value_from (n * 10 + (d - b'0')) s

code-digit : (d : ℕ) → d < 10 → code (digit d) ≡ d + b'0'
code-digit zero h = refl
code-digit (suc zero) h = refl
code-digit (suc (suc zero)) h = refl
code-digit (suc (suc (suc zero))) h = refl
code-digit (suc (suc (suc (suc zero)))) h = refl
code-digit (suc (suc (suc (suc (suc zero))))) h = refl
code-digit (suc (suc (suc (suc (suc (suc zero)))))) h = refl
code-digit (suc (suc (suc (suc (suc (suc (suc zero))))))) h = refl
code-digit (suc (suc (suc (suc (suc (suc (suc (suc zero)))))))) h = refl
code-digit (suc (suc (suc (suc (suc (suc (suc (suc (suc zero))))))))) h = refl
code-digit (suc (suc (suc (suc (suc (suc (suc (suc (suc (suc d)))))))))) h = absurd (omega arith)

digit-value : (n : ℕ) → code (digit (n % 10)) - b'0' ≡ n % 10
digit-value n = omega (arith, code-digit (n % 10) (omega arith))

-- One digit more.
value-step :
    (n : ℕ) (acc : String) (rest : String) (b : Bool)
    → (n / 10 == 0) ≡ b
    → (b ≡ false
        → value_from 0 (codes rest) ≡ value_from (n / 10) (codes (String.◌∷◌ (digit (n % 10)) acc)))
    → value_from 0 (codes (if b then String.◌∷◌ (digit (n % 10)) acc else rest))
      ≡ value_from n (codes acc)
value-step n acc rest true e h =
    ap (λ k. value_from k (codes acc)) (ap (λ d. 0 * 10 + d) (digit-value n) ∙ ground arith)
value-step n acc rest false e h =
    h refl
    ∙ ap (λ k. value_from k (codes acc)) (ap (λ d. n / 10 * 10 + d) (digit-value n) ∙ omega arith)

value-decimal_from :
    (f n : ℕ) (acc : String)
    → n < f
    → value_from 0 (codes (decimal_from f n acc)) ≡ value_from n (codes acc)
unfolding decimal_from
value-decimal_from zero n acc h = absurd (omega arith)
value-decimal_from (suc f) n acc h =
    value-step n acc _ (n / 10 == 0) refl
      λ more. value-decimal_from f (n / 10) (String.◌∷◌ (digit (n % 10)) acc) (shorter more)
  where
    shorter : (n / 10 == 0) ≡ false → n / 10 < f
    shorter more = ground arith

pub value-decimal : (n : ℕ) → value_from 0 (codes (decimal n)) ≡ n
unfolding decimal
value-decimal n = value-decimal_from (suc n) n String.[] (omega arith)

abbrev IsDigit : ℕ → Type 0
IsDigit c = (b'0' ≤ c) × (c ≤ b'9')

digits-step :
    (n : ℕ) (acc rest : String) (b : Bool)
    → (All IsDigit (codes acc) → All IsDigit (codes rest))
    → All IsDigit (codes acc)
    → All IsDigit (codes (if b then acc else rest))
digits-step n acc rest true h d = d
digits-step n acc rest false h d = h d

digit-IsDigit : (n : ℕ) → IsDigit (code (digit (n % 10)))
digit-IsDigit n = let e = code-digit (n % 10) (omega arith) in (omega arith, omega arith)

digits-decimal_from :
    (f n : ℕ) (acc : String) → All IsDigit (codes acc) → All IsDigit (codes (decimal_from f n acc))
unfolding decimal_from
digits-decimal_from zero n acc h = h
digits-decimal_from (suc f) n acc h =
    let acc' = String.◌∷◌ (digit (n % 10)) acc in
    digits-step n acc' _ (n / 10 == 0) (digits-decimal_from f (n / 10) acc') (digit-IsDigit n, h)

pub digits-decimal : (n : ℕ) → All IsDigit (codes (decimal n))
unfolding decimal
digits-decimal n = digits-decimal_from (suc n) n String.[] tt
