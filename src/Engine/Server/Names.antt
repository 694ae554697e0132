-- ===== src/Engine/Server/Names.antt =====
-- Which collections of a server share no table: `_table` and `_staging_table` of
-- src/python/hypervec_scalar_store.py.
use Prim.Native.Char.{code}
use Prim.Native.String.{String, ◌∷◌}
use mathlib.Core.List.{List, ◌++◌, append_cancel_left, append_cancel_right}
use text.Mathlib.TextEquality.{Char-path}
use hyper_vector.Common.{
  ℕ, ◌≡◌, ◌≢◌, refl, sym, ap, ◌∙◌, Bool, true, map, leb, ◌&&◌, ◌||◌, ◌==◌, All, arith,
}
use hyper_vector.Names.{codes, is_alnum}
use hyper_vector.Names.Tables.{
  safe_char, table, fold, identifier, live_table, import_table, import_table-live_table,
}
use hyper_vector.Engine.Server.Frame.{AreSeparate}

abbrev is_plain : ℕ → Bool
is_plain c = (leb b'a' c && leb c b'z') || (leb b'0' c && leb c b'9') || c == b'_'

-- Small letters, digits and underscores, and not ending in the suffix of staging tables.
pub record IsPlain (name : String) : Type 0 where
  pub plain : All (λ c. is_plain c ≡ true) (codes name)
  pub no_suffix : (x : List ℕ) → codes name ≢ x ++ codes "__import"

codes_inj : (a b : String) → codes a ≡ codes b → a ≡ b
codes_inj String.[] String.[] e = refl
codes_inj String.[] (d ∷ b) e = cc
codes_inj (c ∷ a) String.[] e = cc
codes_inj (c ∷ a) (d ∷ b) e =
    let same : code c ≡ code d = cc in
    let rest : codes a ≡ codes b = cc in λ i. Char-path c d same i ∷ codes_inj a b rest i

map-plain : (x : List ℕ) → All (λ c. is_plain c ≡ true) x → map fold (map safe_char x) ≡ x
unfolding safe_char fold is_alnum
map-plain List.[] h = refl
map-plain (List.◌∷◌ c x) (p, h) = ground (arith, map-plain x h)

live_table-plain :
    (name : String) → IsPlain name → live_table (codes name) ≡ codes "docs_" ++ codes name
unfolding table identifier fold
live_table-plain name h = ap (λ x. codes "docs_" ++ x) (map-plain (codes name) h.plain)

live_table-inj :
    (a b : String) → IsPlain a → IsPlain b → live_table (codes a) ≡ live_table (codes b) → a ≡ b
live_table-inj a b ha hb e = codes_inj a b (
    append_cancel_left (codes "docs_") _ _
      (sym (live_table-plain a ha) ∙ e ∙ live_table-plain b hb))

live_table-ne-import_table :
    (a b : String) → IsPlain a → IsPlain b → live_table (codes a) ≢ import_table (codes b)
live_table-ne-import_table a b ha hb e = ha.no_suffix (codes b) (
    append_cancel_left (codes "docs_") _ _ (
      sym (live_table-plain a ha)
      ∙ e
      ∙ import_table-live_table (codes b)
      ∙ ap (λ t. t ++ codes "__import") (live_table-plain b hb)))

-- Two different plain names share no table.
pub plain-AreSeparate : (a b : String) → IsPlain a → IsPlain b → a ≢ b → AreSeparate a b
plain-AreSeparate a b ha hb ne = record {
  names = ne;
  lives = λ e. ne (live_table-inj a b ha hb e);
  live_staging = live_table-ne-import_table a b ha hb;
  staging_live = λ e. live_table-ne-import_table b a hb ha (sym e);
  stagings = λ e. ne (
      live_table-inj a b ha hb (
        append_cancel_right (live_table (codes a)) (live_table (codes b)) (codes "__import")
          (sym (import_table-live_table (codes a)) ∙ e ∙ import_table-live_table (codes b))));
}
