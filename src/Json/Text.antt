-- ===== src/Json/Text.antt =====
-- Python's `str` of a JSON value, and upper case.
pub mod Decimal
use Prim.Native.Char.{Char}
use hyper_vector.Common.{
  ℕ, zero, suc, ◌-◌, ◌/◌, ◌%◌, String, true, false, ◌&&◌, List, map, ◌==◌, leb, if◌then◌else◌,
}
use hyper_vector.Json.{Json, null, bool, int, str, neg, real, arr, obj}

abbrev digit : ℕ → Char
digit d =
    if d == 0
    then "0"
    else if d == 1
    then "1"
    else if d == 2
    then "2"
    else if d == 3
    then "3"
    else if d == 4
    then "4"
    else if d == 5
    then "5"
    else if d == 6
    then "6"
    else if d == 7
    then "7"
    else if d == 8
    then "8"
    else "9"

-- The digits of `n` in front of `acc`, with fuel.
unfoldable decimal_from : ℕ → ℕ → String → String
decimal_from zero n acc = acc
decimal_from (suc f) n acc =
    let acc' = String.◌∷◌ (digit (n % 10)) acc in
    let rest = decimal_from f (n / 10) acc' in if n / 10 == 0 then acc' else rest

-- A number has at most as many digits as its value, and one.
unfoldable pub decimal : ℕ → String
unfolding decimal_from
decimal n = decimal_from (suc n) n String.[]

-- `repr` is `str` of the other values.
unfoldable pub py_str : (Json → String) → Json → String
unfolding decimal
py_str repr (str s) = s
py_str repr null = "None"
py_str repr (bool true) = "True"
py_str repr (bool false) = "False"
py_str repr (int n) = decimal n
py_str repr (neg n) = repr (neg n)
py_str repr (real s) = repr (real s)
py_str repr (arr xs) = repr (arr xs)
py_str repr (obj d) = repr (obj d)

-- `str.upper` of an ASCII text.
unfoldable pub to_upper : List ℕ → List ℕ
to_upper s = map (λ c. if leb b'a' c && leb c b'z' then c - 32 else c) s
