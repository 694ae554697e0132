-- ===== src/Client/Url/Plain.antt =====
-- URLs without the signs that `urllib.parse` looks for.
use hyper_vector.Common.{
  ℕ, ◌≡◌, refl, ap, ◌∙◌, Bool, true, false, ◌&&◌, ◌||◌, ◌==◌, leb, [], ◌∷◌, ◌++◌, All, none, some,
  arith,
}
use mathlib.Core.List.{reverse, reverse_aux, reverse-reverse}
use hyper_vector.Bundle.Lines.{Text, is_space, lstrip, strip}
use hyper_vector.Client.Url.{
  partition, after_last, before_last, lower_code, lower, remove_breaks, split_netloc,
}

abbrev pub Lacks : ℕ → Text → Type 0
Lacks x s = All (λ c. (c == x) ≡ false) s

pub All-mono : {P Q : ℕ → Type 0} → ((c : ℕ) → P c → Q c) → (s : Text) → All P s → All Q s
All-mono f [] h = tt
All-mono f (c ∷ s) h = (f c h.0, All-mono f s h.1)

pub All-append : (P : ℕ → Type 0) (s t : Text) → All P s → All P t → All P (s ++ t)
All-append P [] t h k = k
All-append P (c ∷ s) t h k = (h.0, All-append P s t h.1 k)

pub partition-Lacks : (x : ℕ) (s : Text) → Lacks x s → partition x s ≡ (s, none)
unfolding partition
partition-Lacks x [] h = refl
partition-Lacks x (c ∷ s) h = rw (h.0, partition-Lacks x s h.1) refl

pub partition-at : (x : ℕ) (s t : Text) → Lacks x s → partition x (s ++ x ∷ t) ≡ (s, some t)
unfolding partition
partition-at x [] t h = ground arith
partition-at x (c ∷ s) t h = rw (h.0, partition-at x s t h.1) refl

pub after_last-Lacks : (x : ℕ) (s best : Text) → Lacks x s → after_last x s best ≡ best
unfolding after_last
after_last-Lacks x [] best h = refl
after_last-Lacks x (c ∷ s) best h = rw h.0 (after_last-Lacks x s best h.1)

pub before_last-Lacks : (x : ℕ) (s : Text) → Lacks x s → before_last x s ≡ none
unfolding before_last
before_last-Lacks x [] h = refl
before_last-Lacks x (c ∷ s) h = rw (before_last-Lacks x s h.1, h.0) refl

-- What a name of a host and its port are written with: digits, small letters, and `-`, `.`, `:`, `_`.
unfoldable pub is_plain : ℕ → Bool
is_plain c = (leb 45 c && leb c 46) || (leb 48 c && leb c 58) || c == 95 || (leb 97 c && leb c 122)

abbrev pub Plain : Text → Type 0
Plain s = All (λ c. is_plain c ≡ true) s

plain_lower : (c : ℕ) → is_plain c ≡ true → lower_code c ≡ c
unfolding lower_code is_plain
plain_lower c h = ground arith

pub lower-Plain : (s : Text) → Plain s → lower s ≡ s
lower-Plain [] h = refl
lower-Plain (c ∷ s) h = rw (plain_lower c h.0, lower-Plain s h.1) refl

plain_space : (c : ℕ) → is_plain c ≡ true → is_space c ≡ false
unfolding is_plain is_space
plain_space c h = ground arith

plain_break : (c : ℕ) → is_plain c ≡ true → (c == 9 || c == 10 || c == 13) ≡ false
unfolding is_plain
plain_break c h = ground arith

plain_delimiter : (c : ℕ) → is_plain c ≡ true → (c == b'/' || c == b'?' || c == b'#') ≡ false
unfolding is_plain
plain_delimiter c h = ground arith

pub remove_breaks-Plain : (s : Text) → Plain s → remove_breaks s ≡ s
unfolding remove_breaks
remove_breaks-Plain [] h = refl
remove_breaks-Plain (c ∷ s) h = rw (plain_break c h.0, remove_breaks-Plain s h.1) refl

pub split_netloc-Plain : (s : Text) → Plain s → split_netloc s ≡ (s, [])
unfolding split_netloc
split_netloc-Plain [] h = refl
split_netloc-Plain (c ∷ s) h = rw (plain_delimiter c h.0, split_netloc-Plain s h.1) refl

abbrev pub Visible : Text → Type 0
Visible s = All (λ c. is_space c ≡ false) s

lstrip-Visible : (s : Text) → Visible s → lstrip s ≡ s
unfolding lstrip
lstrip-Visible [] h = refl
lstrip-Visible (c ∷ s) h = rw h.0 refl

reverse_aux-Visible : (s t : Text) → Visible s → Visible t → Visible (reverse_aux s t)
reverse_aux-Visible [] t h k = k
reverse_aux-Visible (c ∷ s) t h k = reverse_aux-Visible s (c ∷ t) h.1 (h.0, k)

pub strip-Visible : (s : Text) → Visible s → strip s ≡ s
unfolding strip
strip-Visible s h =
    ap (λ r. reverse (lstrip (reverse r))) (lstrip-Visible s h)
    ∙ ap reverse (lstrip-Visible (reverse s) (reverse_aux-Visible s [] h tt))
    ∙ reverse-reverse s

pub Plain-Visible : (s : Text) → Plain s → Visible s
Plain-Visible s h = All-mono plain_space s h

pub strip-Plain : (s : Text) → Plain s → strip s ≡ s
strip-Plain s h = strip-Visible s (Plain-Visible s h)

-- A plain text lacks every sign that is not plain.
pub Plain-Lacks : (x : ℕ) → is_plain x ≡ false → (s : Text) → Plain s → Lacks x s
Plain-Lacks x h s p = All-mono other s p
  where
    other : (c : ℕ) → is_plain c ≡ true → (c == x) ≡ false
    other c k = by_test (c == x) refl
      where
        by_test : (b : Bool) → (c == x) ≡ b → b ≡ false
        by_test false e = refl
        by_test true e = ground arith
