-- ===== src/Base/Unicode.antt =====
-- The texts that TextEncoder and TextDecoder keep, as rows of UTF-16 code units: an unpaired surrogate
-- is replaced when a text is encoded, and a byte order mark at its start is dropped when it is decoded.
use randevu.Base.Tests.{ltb, leb}
use Prim.Native.Nat.{ℕ}
use mathlib.Core.Bool.{Bool, true, false, not, ◌&&◌}
use mathlib.Core.List.{[], ◌∷◌}
use randevu.Base.Tests.{◌==◌}
use randevu.Base.Text.{Str}

abbrev is_high : ℕ → Bool
is_high c = leb 0xd800 c && ltb c 0xdc00

abbrev is_low : ℕ → Bool
is_low c = leb 0xdc00 c && ltb c 0xe000

-- Each high surrogate is followed by a low one; `true` is behind a high one.
abbrev paired : Bool → Str → Bool
paired behind [] = not behind
paired true (c ∷ s) = is_low c && paired false s
paired false (c ∷ s) = (ltb c 0x10000 && not (is_low c)) && paired (is_high c) s

abbrev marked : Str → Bool
marked [] = false
marked (c ∷ s) = c == 0xfeff

abbrev pub is_plain : Str → Bool
is_plain s = not (marked s) && paired false s
