-- ===== src/Base/Text/Decimal.antt =====
-- String(n) and padStart: decimal numerals.
use Prim.Native.Nat.{ℕ, zero, suc, ◌+◌, ◌-◌, ◌*◌, ◌/◌, ◌%◌, ◌^◌, ◌<◌, ◌≤◌}
use mathlib.Core.Path.{◌≡◌, refl, ap, ap₂, ◌∙◌, sym, subst}
use mathlib.Core.Logic.{◌⊎◌, inl, inr}
use native.Mathlib.Decide.{dec_lt}
use mathlib.Core.Bool.{true}
use mathlib.Core.List.{[], ◌∷◌, ◌++◌, append_assoc, append-nil}
use native.Mathlib.Omega.{arith}
use native.Mathlib.Nat.{pow-suc}
use randevu.Base.Tests.{ltb, ltb→lt, if◌then◌else◌, Bool-cases}
use randevu.Base.Lists.{length, replicate, length-append, All, cons_head, cons_tail}
use randevu.Base.Text.Order.{Str, str_lt}

-- `fuel` bounds the digits left; `suc n` of it is enough, since n / 10 falls.
unfoldable pub decimal_from : ℕ → ℕ → Str
decimal_from zero n = []
decimal_from (suc fuel) n =
    let rest = decimal_from fuel (n / 10) ++ (48 + n % 10) ∷ [] in
    if ltb n 10 then (48 + n) ∷ [] else rest

-- String(n)
unfoldable pub decimal : ℕ → Str
unfolding decimal_from
decimal n = decimal_from (suc n) n

-- s.padStart(w, "0")
unfoldable pub pad_start : ℕ → Str → Str
pad_start w s = replicate (w - length s) 48 ++ s

-- The w last decimal digits of n.
unfoldable pub fixed : ℕ → ℕ → Str
fixed zero n = []
fixed (suc w) n = fixed w (n / 10) ++ (48 + n % 10) ∷ []

pub length-fixed : (w n : ℕ) → length (fixed w n) ≡ w
unfolding fixed
length-fixed zero n = refl
length-fixed (suc w) n =
    omega
      (arith, length-append {0} (fixed w (n / 10)) ((48 + n % 10) ∷ []), length-fixed w (n / 10))

abbrev zeros : ℕ → Str
zeros w = replicate w 48

replicate-snoc : (w : ℕ) → zeros w ++ 48 ∷ [] ≡ zeros (suc w)
replicate-snoc zero = refl
replicate-snoc (suc w) = ap (λ t. 48 ∷ t) (replicate-snoc w)

fixed-zero : (w : ℕ) → fixed w 0 ≡ zeros w
unfolding fixed
fixed-zero zero = refl
fixed-zero (suc w) = rw (fixed-zero w) (replicate-snoc w)

fixed-suc : (w n : ℕ) → fixed (suc w) n ≡ fixed w (n / 10) ++ (48 + n % 10) ∷ []
unfolding fixed
fixed-suc w n = refl

pad_start-snoc : (w d : ℕ) (s : Str) → pad_start (suc w) (s ++ d ∷ []) ≡ pad_start w s ++ d ∷ []
unfolding pad_start
pad_start-snoc w d s =
    rw (append_assoc (replicate (w - length s) 48) s (d ∷ []))
      (ap (λ k. replicate k 48 ++ (s ++ d ∷ [])) (omega (arith, length-append {0} s (d ∷ []))))

below_tenth : (w n : ℕ) → n < 10 ^ suc w → n / 10 < 10 ^ w
below_tenth w n h = omega (arith, pow-suc 10 w)

pad_start-nil : (w : ℕ) → pad_start w [] ≡ fixed w 0
unfolding pad_start
pad_start-nil w = append-nil (zeros (w - 0)) ∙ ap zeros (omega arith) ∙ sym (fixed-zero w)

pad_digit : (w n : ℕ) → n < 10 → pad_start (suc w) ((48 + n) ∷ []) ≡ fixed (suc w) n
unfolding fixed
pad_digit w n h =
    pad_start-snoc w (48 + n) []
    ∙ ap (λ t. t ++ (48 + n) ∷ []) (pad_start-nil w)
    ∙ ap₂ (λ m d. fixed w m ++ (48 + d) ∷ []) (omega arith) (omega arith)

tenth_pos : (w n : ℕ) → 10 ≤ n → n < 10 ^ suc w → 0 < w
tenth_pos zero n g h = absurd (omega arith)
tenth_pos (suc w) n g h = omega arith

pad-decimal_from :
    (w fuel n : ℕ) → n < fuel → n < 10 ^ w → 0 < w → pad_start w (decimal_from fuel n) ≡ fixed w n
unfolding decimal_from
pad-decimal_from zero fuel n f h p = absurd (omega arith)
pad-decimal_from (suc w) zero n f h p = absurd (omega arith)
pad-decimal_from (suc w) (suc fuel) n f h p = elim (Bool-cases (ltb n 10)) [
  | inl small ↦ rw small (pad_digit w n (ltb→lt n 10 small))
  | inr large ↦ rw large (
      pad_start-snoc w (48 + n % 10) (decimal_from fuel (n / 10))
      ∙ ap (λ t. t ++ (48 + n % 10) ∷ [])
          (pad-decimal_from w fuel (n / 10) (ground arith) (below_tenth w n h)
            (tenth_pos w n (ground arith) h))
      ∙ sym (fixed-suc w n))
]

-- Padded to w places, a numeral below 10 ^ w is its w digits.
pub pad-decimal : (w n : ℕ) → n < 10 ^ w → 0 < w → pad_start w (decimal n) ≡ fixed w n
unfolding decimal
pad-decimal w n h p = pad-decimal_from w (suc n) n (omega arith) h p

-- Two texts of one length, each with one more unit, compare by their heads first.
str_lt-snoc :
    (s t : Str) (c d : ℕ)
    → length s ≡ length t
    → (str_lt s t ≡ true) ⊎ ((s ≡ t) × (c < d))
    → str_lt (s ++ c ∷ []) (t ++ d ∷ []) ≡ true
unfolding str_lt
str_lt-snoc [] [] c d e h = ground arith
str_lt-snoc [] (b ∷ t) c d e h = absurd (omega arith)
str_lt-snoc (a ∷ s) [] c d e h = absurd (omega arith)
str_lt-snoc (a ∷ s) (b ∷ t) c d e (inl h) =
    ground (arith, λ (p : str_lt s t ≡ true). str_lt-snoc s t c d (omega arith) (inl p))
str_lt-snoc (a ∷ s) (b ∷ t) c d e (inr h) =
    ground (arith, λ (p : s ≡ t). str_lt-snoc s t c d (omega arith) (inr (p, h.1)))

-- Fixed-width numerals are ordered as their numbers are.
pub fixed-lt : (w a b : ℕ) → a < b → b < 10 ^ w → str_lt (fixed w a) (fixed w b) ≡ true
unfolding fixed
fixed-lt zero a b h k = absurd (omega arith)
fixed-lt (suc w) a b h k =
    str_lt-snoc (fixed w (a / 10)) (fixed w (b / 10)) (48 + a % 10) (48 + b % 10)
      (length-fixed w (a / 10) ∙ sym (length-fixed w (b / 10)))
      (elim (dec_lt (a / 10) (b / 10)) [
        | yes p ↦ inl (fixed-lt w (a / 10) (b / 10) p (below_tenth w b k))
        | no p ↦ inr (ap (fixed w) (omega arith), omega arith)
      ])

-- The number that a row of digits stands for.
value_from : ℕ → Str → ℕ
value_from acc [] = acc
value_from acc (c ∷ s) = value_from (10 * acc + (c - 48)) s

value_from-snoc :
    (acc : ℕ) (s : Str) (c : ℕ) → value_from acc (s ++ c ∷ []) ≡ 10 * value_from acc s + (c - 48)
unfolding value_from
value_from-snoc acc [] c = refl
value_from-snoc acc (d ∷ s) c = value_from-snoc (10 * acc + (d - 48)) s c

value-decimal_from : (fuel n : ℕ) → n < fuel → value_from 0 (decimal_from fuel n) ≡ n
unfolding decimal_from
value-decimal_from zero n h = absurd (omega arith)
value-decimal_from (suc fuel) n h = elim (Bool-cases (ltb n 10)) [
  | inl small ↦ rw small (digit n)
  | inr large ↦ rw large (
      value_from-snoc 0 (decimal_from fuel (n / 10)) (48 + n % 10)
      ∙ omega (arith, value-decimal_from fuel (n / 10) (ground arith)))
]
  where
    digit : (n : ℕ) → value_from 0 ((48 + n) ∷ []) ≡ n
    digit n = value_from-snoc 0 [] (48 + n) ∙ unfold value_from in omega arith

value-zeros : (k : ℕ) (s : Str) → value_from 0 (zeros k ++ s) ≡ value_from 0 s
unfolding value_from
value-zeros zero s = refl
value-zeros (suc k) s = value-zeros k s

-- Equal numerals, padded or not, are of equal numbers.
pub pad_decimal-injective : (w a b : ℕ) → pad_start w (decimal a) ≡ pad_start w (decimal b) → a ≡ b
unfolding pad_start decimal
pad_decimal-injective w a b h =
    sym (value-decimal_from (suc a) a (omega arith))
    ∙ sym (value-zeros (w - length (decimal a)) (decimal a))
    ∙ ap (value_from 0) h
    ∙ value-zeros (w - length (decimal b)) (decimal b)
    ∙ value-decimal_from (suc b) b (omega arith)

pub decimal-injective : (a b : ℕ) → decimal a ≡ decimal b → a ≡ b
unfolding decimal
decimal-injective a b h =
    sym (value-decimal_from (suc a) a (omega arith))
    ∙ ap (value_from 0) h
    ∙ value-decimal_from (suc b) b (omega arith)

-- A numeral has digits only.
abbrev pub IsDigit : ℕ → Type 0
IsDigit c = (48 ≤ c) × (c < 58)

All-append {ℓ} : (P : ℕ → Type ℓ) (s t : Str) → All P s → All P t → All P (s ++ t)
All-append P [] t h k = k
All-append P (c ∷ s) t h k = (h.0, All-append P s t h.1 k)

decimal_from-digits : (fuel n : ℕ) → All IsDigit (decimal_from fuel n)
unfolding decimal_from
decimal_from-digits zero n = tt
decimal_from-digits (suc fuel) n = elim (Bool-cases (ltb n 10)) [
  | inl small ↦ rw small ((omega arith, omega (arith, ltb→lt n 10 small)), tt)
  | inr large ↦ rw large (
      All-append IsDigit (decimal_from fuel (n / 10)) ((48 + n % 10) ∷ [])
        (decimal_from-digits fuel (n / 10)) ((omega arith, omega arith), tt))
]

pub decimal-digits : (n : ℕ) → All IsDigit (decimal n)
unfolding decimal
decimal-digits n = decimal_from-digits (suc n) n

-- Digits before a unit that is none are read back.
pub digits_split :
    (c : ℕ) (s t u v : Str)
    → ¬ IsDigit c
    → All IsDigit s
    → All IsDigit t
    → s ++ c ∷ u ≡ t ++ c ∷ v
    → (s ≡ t) × (u ≡ v)
digits_split c [] [] u v n h k e = (refl, cc)
digits_split c [] (b ∷ t) u v n h k e = absurd (n (subst IsDigit (sym (cons_head e)) k.0))
digits_split c (a ∷ s) [] u v n h k e = absurd (n (subst IsDigit (cons_head e) h.0))
digits_split c (a ∷ s) (b ∷ t) u v n h k e =
    let r = digits_split c s t u v n h.1 k.1 (cons_tail e) in (cc (r.0, cons_head e), r.1)

pub fixed-digits : (w n : ℕ) → All IsDigit (fixed w n)
unfolding fixed
fixed-digits zero n = tt
fixed-digits (suc w) n =
    All-append IsDigit (fixed w (n / 10)) ((48 + n % 10) ∷ []) (fixed-digits w (n / 10))
      ((omega arith, omega arith), tt)
