-- ===== src/Base/Text/Split.antt =====
-- `parts.join(c)`, `s.split(c)` with a one-character separator, and `s.trim()`.
use Prim.Native.Nat.{ℕ}
use mathlib.Core.Path.{◌≡◌, refl, ap, ◌∙◌, sym}
use mathlib.Core.Logic.{◌≢◌}
use mathlib.Core.Bool.{Bool, true, false, ◌||◌, ◌&&◌, not}
use mathlib.Core.List.{List, [], ◌∷◌, ◌++◌, reverse, reverse-reverse}
use native.Mathlib.Omega.{arith}
use randevu.Base.Tests.{leb, ◌==◌, if◌then◌else◌}
use randevu.Base.Lists.{All}
use randevu.Base.Text.Order.{Str}

unfoldable pub join_by : ℕ → List Str → Str
join_by c [] = []
join_by c (p ∷ []) = p
join_by c (p ∷ q ∷ ps) = p ++ c ∷ join_by c (q ∷ ps)

abbrev split_cons : Bool → ℕ → List Str → List Str
split_cons true x parts = [] ∷ parts
split_cons false x [] = []
split_cons false x (p ∷ ps) = (x ∷ p) ∷ ps

unfoldable pub split_by : ℕ → Str → List Str
split_by c [] = [] ∷ []
split_by c (x ∷ s) = split_cons (x == c) x (split_by c s)

-- No unit of the text is the separator.
abbrev pub Free : ℕ → Str → Type 0
Free c = All (λ x. (x == c) ≡ false)

pub split_by-Free : (c : ℕ) (p : Str) → Free c p → split_by c p ≡ p ∷ []
unfolding split_by
split_by-Free c [] h = refl
split_by-Free c (x ∷ p) h = rw (h.0, split_by-Free c p h.1)

pub split_by-append : (c : ℕ) (p s : Str) → Free c p → split_by c (p ++ c ∷ s) ≡ p ∷ split_by c s
unfolding split_by
split_by-append c [] s h = ground arith
split_by-append c (x ∷ p) s h = rw (h.0, split_by-append c p s h.1)

-- Splitting what was joined gives the parts back, where no part holds the separator.
pub split_by-join_by :
    (c : ℕ) (p : Str) (ps : List Str)
    → Free c p
    → All (Free c) ps
    → split_by c (join_by c (p ∷ ps)) ≡ p ∷ ps
unfolding join_by
split_by-join_by c p [] h k = split_by-Free c p h
split_by-join_by c p (q ∷ ps) h k =
    split_by-append c p (join_by c (q ∷ ps)) h ∙ ap (λ t. p ∷ t) (split_by-join_by c q ps k.0 k.1)

-- So joined texts are equal only if the parts are.
pub join_by-injective :
    (c : ℕ) (p q : Str) (ps qs : List Str)
    → Free c p
    → All (Free c) ps
    → Free c q
    → All (Free c) qs
    → join_by c (p ∷ ps) ≡ join_by c (q ∷ qs)
    → p ∷ ps ≡ q ∷ qs
join_by-injective c p q ps qs h hs k ks e =
    sym (split_by-join_by c p ps h hs) ∙ ap (split_by c) e ∙ split_by-join_by c q qs k ks

join_by-split_cons :
    (c x : ℕ) (b : Bool) (parts : List Str) (s : Str)
    → ((x == c) ≡ b)
    → join_by c parts ≡ s
    → parts ≢ []
    → join_by c (split_cons b x parts) ≡ x ∷ s
unfolding join_by
join_by-split_cons c x b [] s e h n = absurd (n refl)
join_by-split_cons c x true (p ∷ ps) s e h n = ground arith
join_by-split_cons c x false (p ∷ []) s e h n = ap (λ t. x ∷ t) h
join_by-split_cons c x false (p ∷ q ∷ ps) s e h n = ap (λ t. x ∷ t) h

pub split_by-ne-nil : (c : ℕ) (s : Str) → split_by c s ≢ []
unfolding split_by
split_by-ne-nil c [] e = cc
split_by-ne-nil c (x ∷ s) e = ground (arith, split_by-ne-nil c s)

-- Joining what was split gives the text back.
pub join_by-split_by : (c : ℕ) (s : Str) → join_by c (split_by c s) ≡ s
unfolding split_by
join_by-split_by c [] = unfold join_by in refl
join_by-split_by c (x ∷ s) =
    join_by-split_cons c x (x == c) (split_by c s) s refl (join_by-split_by c s)
      (split_by-ne-nil c s)

-- The parts hold no separator.
pub split_by-parts : (c : ℕ) (s : Str) → All (Free c) (split_by c s)
unfolding split_by
split_by-parts c [] = (tt, tt)
split_by-parts c (x ∷ s) = parts (x == c) (split_by c s) refl (split_by-parts c s)
  where
    parts :
        (b : Bool) (ps : List Str)
        → (x == c) ≡ b
        → All (Free c) ps
        → All (Free c) (split_cons b x ps)
    parts true ps e h = (tt, h)
    parts false [] e h = tt
    parts false (p ∷ ps) e h = ((e, h.0), h.1)

-- White space and line terminators of ECMAScript.
unfoldable pub is_space : ℕ → Bool
is_space c =
    (leb 9 c && leb c 13)
    || c == 32
    || c == 160
    || c == 0x1680
    || (leb 0x2000 c && leb c 0x200a)
    || c == 0x2028
    || c == 0x2029
    || c == 0x202f
    || c == 0x205f
    || c == 0x3000
    || c == 0xfeff

unfoldable pub trim_start : Str → Str
unfolding is_space
trim_start [] = []
trim_start (c ∷ s) = let rest = trim_start s in if is_space c then rest else c ∷ s

unfoldable pub trim : Str → Str
unfolding trim_start
trim s = reverse (trim_start (reverse (trim_start s)))

-- A text that begins with no space.
abbrev pub StartsSolid : Str → Type 0
StartsSolid [] = Unit
StartsSolid (c ∷ s) = is_space c ≡ false

trim_start-solid : (s : Str) → StartsSolid s → trim_start s ≡ s
unfolding trim_start
trim_start-solid [] h = refl
trim_start-solid (c ∷ s) h = rw h

-- A text with no space at its ends is left alone.
pub trim-solid : (s : Str) → StartsSolid s → StartsSolid (reverse s) → trim s ≡ s
unfolding trim
trim-solid s h k =
    rw (trim_start-solid s h) (rw (trim_start-solid (reverse s) k) (reverse-reverse s))

abbrev pub all_free : ℕ → Str → Bool
all_free c [] = true
all_free c (x ∷ s) = not (x == c) && all_free c s

-- For a literal the condition is computed.
pub Free-by_check : (c : ℕ) (s : Str) → all_free c s ≡ true → Free c s
Free-by_check c [] h = tt
Free-by_check c (x ∷ s) h = (ground arith, Free-by_check c s (ground arith))
