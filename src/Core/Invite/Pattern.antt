-- ===== src/Core/Invite/Pattern.antt =====
-- The patterns of `encodeJoinLink` and `parseJoinLink` (packages/core/src/invite.ts), which the code
-- writes as regular expressions: no alternative of theirs is tried twice.
use randevu.Base.{
  ℕ, ◌+◌, Bool, false, ◌||◌, ◌&&◌, not, Option, none, some, [], ◌∷◌, ◌++◌, Str, text, trim, leb,
  if◌then◌else◌, ◌==◌,
}
use randevu.Base.Options.{◌>>=◌}
use randevu.Core.Invite.{is_empty}

abbrev pub slash : ℕ
slash = 47

abbrev pub hash : ℕ
hash = 35

abbrev pub dot : ℕ
dot = 46

-- The characters that `[^/?#]` leaves out.
abbrev pub is_stop : ℕ → Bool
is_stop c = c == slash || c == 63 || c == hash

-- The characters that `.` leaves out.
abbrev pub is_line_end : ℕ → Bool
is_line_end c = c == 10 || c == 13 || c == 8232 || c == 8233

unfoldable pub has : (ℕ → Bool) → Str → Bool
has f [] = false
has f (c ∷ s) = f c || has f s

-- A character of a pattern that is read without regard to case; the patterns are in lower case.
abbrev pub same_letter : ℕ → ℕ → Bool
same_letter c x = x == c || (leb 97 c && leb c 122 && x + 32 == c)

abbrev pub after : ℕ → Option (Str × Str) → Option (Str × Str)
after x none = none
after x (some (found, rest)) = some (x ∷ found, rest)

-- A literal pattern at the start of a text: what it matches, and what is behind.
unfoldable pub eat : Str → Str → Option (Str × Str)
eat [] s = some ([], s)
eat (c ∷ p) [] = none
eat (c ∷ p) (x ∷ s) = if same_letter c x then after x (eat p s) else none

-- `[^/?#]+`, or nothing where the code asks whether it is there.
unfoldable pub segment : Str → Str
segment [] = []
segment (c ∷ s) = if is_stop c then [] else c ∷ segment s

unfoldable pub beyond : Str → Str
beyond [] = []
beyond (c ∷ s) = if is_stop c then c ∷ s else beyond s

abbrev pub or_else : Option (Str × Str) → Option (Str × Str) → Option (Str × Str)
or_else none b = b
or_else (some p) b = some p

-- `https?:\/\/`, the longer form first.
unfoldable pub scheme : Str → Option (Str × Str)
unfolding eat
scheme s = or_else (eat (text "https://") s) (eat (text "http://") s)

abbrev pub with_segment : Str → Str → Option (Str × Str)
with_segment found rest =
    if is_empty (segment rest) then none else some (found ++ segment rest, beyond rest)

-- `^(https?:\/\/[^/?#]+)`: the origin, and what is behind.
unfoldable pub origin_match : Str → Option (Str × Str)
unfolding scheme segment beyond
origin_match s = do (found, rest) ← scheme s; with_segment found rest

abbrev pub first : Option (Str × Str) → Option Str
first none = none
first (some (a, b)) = some a

unfoldable pub origin : Str → Option Str
unfolding origin_match
origin relay_url = first (origin_match (trim relay_url))

-- What the pattern of `parseJoinLink` captures.
pub record Match : Type 0 where
  pub relay_url : Str
  pub id : Str
  pub fragment : Str

abbrev pub fragment_match : Str → Str → Str → Option Match
fragment_match found id [] = none
fragment_match found id (c ∷ s) =
    if not (c == hash) || is_empty s || has is_line_end s
    then none
    else some (record { relay_url = found; id = id; fragment = s })

-- `^(https?:\/\/[^/?#]+)\/j\/([^/?#]+)#(.+)$`
unfoldable pub link_match : Str → Option Match
unfolding origin_match has
link_match s = do
  (found, rest) ← origin_match s
  (slashes, tail) ← eat (text "/j/") rest
  if is_empty (segment tail) then none else fragment_match found (segment tail) (beyond tail)
