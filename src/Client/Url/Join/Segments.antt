-- ===== src/Client/Url/Join/Segments.antt =====
-- Paths of segments without the signs that `urllib.parse` looks for.
use hyper_vector.Common.{
  ℕ, ◌≡◌, refl, ap, Bool, true, false, ◌||◌, ◌==◌, Option, none, some, [], ◌∷◌, ◌++◌, All, arith,
  if◌then◌else◌,
}
use hyper_vector.Common.Dict.{codes_eq}
use hyper_vector.Names.{codes, is_name_char, is_alnum}
use hyper_vector.Bundle.Lines.{Text}
use hyper_vector.Client.Url.{
  after_last, before_last, remove_breaks, split_netloc, split_rest, split_params,
}
use hyper_vector.Client.Url.Plain.{Lacks, Plain, is_plain, partition-Lacks, All-mono}

-- What a segment and a path are written with.
unfoldable pub is_path_char : ℕ → Bool
unfolding is_name_char
is_path_char c = is_name_char c || c == b'/'

abbrev pub Segment : Text → Type 0
Segment s = All (λ c. is_name_char c ≡ true) s

abbrev pub IsPath : Text → Type 0
IsPath s = All (λ c. is_path_char c ≡ true) s

segment_path : (c : ℕ) → is_name_char c ≡ true → is_path_char c ≡ true
unfolding is_path_char
segment_path c h = rw h refl

pub Segment-IsPath : (s : Text) → Segment s → IsPath s
Segment-IsPath s h = All-mono segment_path s h

pub IsPath-Lacks : (x : ℕ) → is_path_char x ≡ false → (s : Text) → IsPath s → Lacks x s
IsPath-Lacks x h s p = All-mono other s p
  where
    other : (c : ℕ) → is_path_char c ≡ true → (c == x) ≡ false
    other c k = by_test (c == x) refl
      where
        by_test : (b : Bool) → (c == x) ≡ b → b ≡ false
        by_test false e = refl
        by_test true e = ground arith

pub Segment-Lacks : (x : ℕ) → is_name_char x ≡ false → (s : Text) → Segment s → Lacks x s
Segment-Lacks x h s p = All-mono other s p
  where
    other : (c : ℕ) → is_name_char c ≡ true → (c == x) ≡ false
    other c k = by_test (c == x) refl
      where
        by_test : (b : Bool) → (c == x) ≡ b → b ≡ false
        by_test false e = refl
        by_test true e = ground arith

path_break : (c : ℕ) → is_path_char c ≡ true → (c == 9 || c == 10 || c == 13) ≡ false
unfolding is_path_char is_name_char is_alnum
path_break c h = ground arith

pub remove_breaks-IsPath : (s : Text) → IsPath s → remove_breaks s ≡ s
unfolding remove_breaks
remove_breaks-IsPath [] h = refl
remove_breaks-IsPath (c ∷ s) h = rw (path_break c h.0, remove_breaks-IsPath s h.1) refl

plain_delimiter : (c : ℕ) → is_plain c ≡ true → (c == b'/' || c == b'?' || c == b'#') ≡ false
unfolding is_plain
plain_delimiter c h = ground arith

pub split_netloc-rooted : (s r : Text) → Plain s → split_netloc (s ++ b'/' ∷ r) ≡ (s, b'/' ∷ r)
unfolding split_netloc
split_netloc-rooted [] r h = refl
split_netloc-rooted (c ∷ s) r h = rw (plain_delimiter c h.0, split_netloc-rooted s r h.1) refl

-- A path without semicolons has no parameters.
abbrev Rejoins : ℕ → Text → Text → Text → Option Text → Type 0
Rejoins c p best t none = t ≡ best
Rejoins c p best t (some u) = u ++ c ∷ t ≡ p

rejoin_step :
    (c x : ℕ) (s best t : Text) (b : Bool) (o : Option Text)
    → (b ≡ true → c ≡ x)
    → Rejoins c s (if b then s else best) t o
    → Rejoins c
        (x ∷ s)
        best
        t
        (elim o [ none ↦ if b then some [] else none | some u ↦ some (x ∷ u) ])
rejoin_step c x s best t true none e h = cc (e refl, h)
rejoin_step c x s best t false none e h = h
rejoin_step c x s best t b (some u) e h = ap (◌∷◌ x) h

rejoined : (c : ℕ) (p best : Text) → Rejoins c p best (after_last c p best) (before_last c p)
unfolding before_last after_last
rejoined c [] best = refl
rejoined c (x ∷ s) best =
    rejoin_step c x s best _ (x == c) (before_last c s) (λ e. ground arith)
      (rejoined c s (if x == c then s else best))

after_last-All :
    (P : ℕ → Type 0) (c : ℕ) (p best : Text) → All P p → All P best → All P (after_last c p best)
unfolding after_last
after_last-All P c [] best h k = k
after_last-All P c (x ∷ s) best h k = after_last-All P c s _ h.1 (by_test (x == c))
  where
    by_test : (b : Bool) → All P (if b then s else best)
    by_test true = h.1
    by_test false = k

pub split_params-Lacks : (p : Text) → Lacks b';' p → split_params p ≡ (p, [])
unfolding split_params
split_params-Lacks p h = by_slash (before_last b'/' p) refl (rejoined b'/' p p)
  where
    by_slash :
        (o : Option Text)
        → before_last b'/' p ≡ o
        → Rejoins b'/' p p (after_last b'/' p p) o
        → split_params p ≡ (p, [])
    by_slash none e r = rw (split_params, e, partition-Lacks b';' p h) refl
    by_slash (some u) e r =
        rw
          (
            split_params,
            e,
            partition-Lacks b';' _ (after_last-All (λ c. (c == b';') ≡ false) b'/' p p h h),
          )
          (ap (λ (q : Text). (q, [])) r)

-- The parts of a rest that is a path.
pub split_rest-http :
    (netloc p : Text)
    → IsPath p
    → split_rest (codes "http") netloc p ≡ record {
      scheme = codes "http";
      netloc = netloc;
      path = p;
      params = [];
      query = [];
      fragment = [];
    }
unfolding split_rest is_path_char is_name_char is_alnum codes_eq
split_rest-http netloc p h =
    rw
      (
        partition-Lacks b'#' p (IsPath-Lacks b'#' refl p h),
        partition-Lacks b'?' p (IsPath-Lacks b'?' refl p h),
        split_params-Lacks p (IsPath-Lacks b';' refl p h),
      )
      refl
