-- ===== src/Base/Numbered.antt =====
-- Rows of numbered messages, and their reading behind a cursor: what the relay's session and the hosted
-- room share.
use Prim.Native.Nat.{ℕ, zero, suc, ◌+◌, ◌-◌, ◌≤◌}
use mathlib.Core.List.{List, [], ◌∷◌, ◌++◌}
use mathlib.Core.Path.{◌≡◌, refl, ap, ◌∙◌, subst}
use native.Mathlib.Decide.{dec_lt}
use native.Mathlib.Omega.{arith}
use randevu.Base.Lists.{length, drop, drop-nil}
use randevu.Base.Tests.{ltb, lt→ltb, if◌then◌else◌}

module _ {M : Type 0} (seq : M → ℕ) where
  -- filter((m) => m.seq > after)
  unfoldable pub newer_by : ℕ → List M → List M
  newer_by after [] = []
  newer_by after (m ∷ ms) =
      let rest = newer_by after ms in if ltb after (seq m) then m ∷ rest else rest

  -- sort((a, b) => a.seq - b.seq)
  unfoldable pub insert_by : M → List M → List M
  insert_by m [] = m ∷ []
  insert_by m (n ∷ ns) = if ltb (seq n) (seq m) then n ∷ insert_by m ns else m ∷ n ∷ ns

  unfoldable pub sort_by : List M → List M
  unfolding insert_by
  sort_by [] = []
  sort_by (m ∷ ms) = insert_by m (sort_by ms)

  -- The last number, or the one that is given.
  unfoldable pub last_by : ℕ → List M → ℕ
  last_by after [] = after
  last_by after (m ∷ ms) = last_by (seq m) ms

  -- Numbered from n + 1 on.
  abbrev pub IsNumbered : ℕ → List M → Type 0
  IsNumbered n [] = Unit
  IsNumbered n (m ∷ ms) = (seq m ≡ n + 1) × IsNumbered (n + 1) ms

  pub IsNumbered-snoc :
      (n : ℕ) (log : List M) (m : M)
      → IsNumbered n log
      → seq m ≡ n + length log + 1
      → IsNumbered n (log ++ m ∷ [])
  IsNumbered-snoc n [] m h e = (omega arith, tt)
  IsNumbered-snoc n (x ∷ log) m h e = (h.0, IsNumbered-snoc (n + 1) log m h.1 (omega arith))

  pub IsNumbered-drop :
      (n k : ℕ) (log : List M) → IsNumbered n log → IsNumbered (n + k) (drop k log)
  IsNumbered-drop n zero log h = subst (λ t. IsNumbered t log) (omega arith) h
  IsNumbered-drop n (suc k) [] h = tt
  IsNumbered-drop n (suc k) (m ∷ ms) h =
      subst (λ t. IsNumbered t (drop k ms)) (omega arith) (IsNumbered-drop (n + 1) k ms h.1)

  newer_by-all :
      (n after : ℕ) (log : List M) → IsNumbered n log → after ≤ n → newer_by after log ≡ log
  unfolding newer_by
  newer_by-all n after [] h k = refl
  newer_by-all n after (m ∷ ms) h k =
      rw (lt→ltb after (seq m) (omega arith), newer_by-all (n + 1) after ms h.1 (omega arith))

  newer_by-drop :
      (n after : ℕ) (log : List M)
      → IsNumbered n log
      → n ≤ after
      → newer_by after log ≡ drop (after - n) log
  unfolding newer_by
  newer_by-drop n after [] h k = drop-nil (after - n)
  newer_by-drop n after (m ∷ ms) h k = elim (dec_lt n after) [
    | yes p ↦
        let e : after - n ≡ suc (after - (n + 1)) = omega arith in
        rw e (ground (arith, newer_by-drop (n + 1) after ms h.1 (omega arith)))
    | no p ↦
        let e : after - n ≡ 0 = omega arith in rw e (newer_by-all n after (m ∷ ms) h (omega arith))
  ]

  pub newer_by-tail :
      (after : ℕ) (log : List M) → IsNumbered 0 log → newer_by after log ≡ drop after log
  newer_by-tail after log h =
      newer_by-drop 0 after log h (omega arith) ∙ ap (λ k. drop k log) (omega arith)

  sort_by-IsNumbered : (n : ℕ) (log : List M) → IsNumbered n log → sort_by log ≡ log
  unfolding sort_by
  sort_by-IsNumbered n [] h = refl
  sort_by-IsNumbered n (m ∷ []) h = refl
  sort_by-IsNumbered n (m ∷ x ∷ ms) h = rw (sort_by-IsNumbered (n + 1) (x ∷ ms) h.1) (ground arith)

  last_by-IsNumbered : (n : ℕ) (log : List M) → IsNumbered n log → last_by n log ≡ n + length log
  unfolding last_by
  last_by-IsNumbered n [] h = omega arith
  last_by-IsNumbered n (m ∷ ms) h =
      ap (λ t. last_by t ms) h.0 ∙ last_by-IsNumbered (n + 1) ms h.1 ∙ omega arith

  -- What is read of a log behind a cursor, in order, and the next cursor.
  pub tail_lem :
      (after : ℕ) (log found : List M)
      → IsNumbered 0 log
      → found ≡ drop after log
      → (sort_by found ≡ drop after log)
        × (last_by after (sort_by found) ≡ after + length (drop after log))
  tail_lem after log found h e =
      let d : IsNumbered after (drop after log) =
        subst (λ t. IsNumbered t (drop after log)) (omega arith) (IsNumbered-drop 0 after log h) in
      let s : sort_by found ≡ drop after log =
        ap sort_by e ∙ sort_by-IsNumbered after (drop after log) d in
      (s, ap (last_by after) s ∙ last_by-IsNumbered after (drop after log) d)
