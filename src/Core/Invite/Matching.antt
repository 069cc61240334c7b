-- ===== src/Core/Invite/Matching.antt =====
-- What the patterns of join links match does not depend on what stands behind the match.
use randevu.Base.{
  ℕ, true, false, Option, none, some, [], ◌∷◌, ◌++◌, Str, text, trim, ◌≡◌, refl, ◌∙◌, append_assoc,
  arith, Bool-cases, inl, inr,
}
use randevu.Base.Options.{◌>>=◌}
use randevu.Core.Invite.Pattern.{
  slash, hash, is_stop, is_line_end, has, same_letter, after, eat, segment, beyond, or_else, scheme,
  with_segment, origin_match, first, origin, link_match,
}
use randevu.Core.Invite.{is_empty}

after-cases :
    (x : ℕ) (o : Option (Str × Str)) (m r : Str)
    → after x o ≡ some (m, r)
    → (m' : Str) × ((o ≡ some (m', r)) × (m ≡ x ∷ m'))
after-cases x none m r h = cc
after-cases x (some (m', r')) m r h = (m', (cc, cc))

pub eat-behind : (p s m r r' : Str) → eat p s ≡ some (m, r) → eat p (m ++ r') ≡ some (m, r')
unfolding eat
eat-behind [] s m r r' h = let e : [] ≡ m = cc in rw (← e)
eat-behind (c ∷ p) [] m r r' h = cc
eat-behind (c ∷ p) (x ∷ s) m r r' h =
    let (m', (e, f)) = after-cases x (eat p s) m r (ground arith) in
    let same : same_letter c x ≡ true = ground arith in rw f (rw (same, eat-behind p s m' r r' e))

-- Two patterns that part at a character match no text both.
pub eat-parts :
    (p q q' : Str) (a b : ℕ) (s m r r' : Str)
    → ((x : ℕ) → same_letter a x ≡ true → same_letter b x ≡ false)
    → eat (p ++ a ∷ q) s ≡ some (m, r)
    → eat (p ++ b ∷ q') (m ++ r') ≡ none
unfolding eat
eat-parts [] q q' a b [] m r r' d h = cc
eat-parts [] q q' a b (x ∷ s) m r r' d h =
    let (m', (e, f)) = after-cases x (eat q s) m r (ground arith) in
    let same : same_letter a x ≡ true = ground arith in rw f (rw (d x same))
eat-parts (c ∷ p) q q' a b [] m r r' d h = cc
eat-parts (c ∷ p) q q' a b (x ∷ s) m r r' d h =
    let (m', (e, f)) = after-cases x (eat (p ++ a ∷ q) s) m r (ground arith) in
    let same : same_letter c x ≡ true = ground arith in
    rw f (rw (same, eat-parts p q q' a b s m' r r' d e))

colon_not_s : (x : ℕ) → same_letter 58 x ≡ true → same_letter 115 x ≡ false
colon_not_s x h = ground arith

or_else-first : (a b : Option (Str × Str)) (p : Str × Str) → a ≡ some p → or_else a b ≡ some p
or_else-first a b p e = rw e

scheme-behind : (s m r r' : Str) → scheme s ≡ some (m, r) → scheme (m ++ r') ≡ some (m, r')
unfolding scheme
scheme-behind s m r r' h = behind (eat (text "https://") s) (eat (text "http://") s) refl refl h
  where
    behind :
        (a b : Option (Str × Str))
        → eat (text "https://") s ≡ a
        → eat (text "http://") s ≡ b
        → or_else a b ≡ some (m, r)
        → or_else (eat (text "https://") (m ++ r')) (eat (text "http://") (m ++ r')) ≡ some (m, r')
    behind (some p) b e f g = or_else-first _ _ _ (eat-behind (text "https://") s m r r' (e ∙ g))
    behind none b e f g = rw (
      eat-parts (text "http") (text "//") (text "://") 58 115 s m r r' colon_not_s (f ∙ g),
      eat-behind (text "http://") s m r r' (f ∙ g),
    )

segment-behind :
    (s : Str) (c : ℕ) (r : Str)
    → is_stop c ≡ true
    → (segment (segment s ++ c ∷ r) ≡ segment s) × (beyond (segment s ++ c ∷ r) ≡ c ∷ r)
unfolding segment beyond
segment-behind [] c r h = ground arith
segment-behind (x ∷ s) c r h = ground (arith, segment-behind s c r h)

-- A text without a stop character is one segment.
pub segment-full :
    (s : Str) (c : ℕ) (r : Str)
    → has is_stop s ≡ false
    → is_stop c ≡ true
    → (segment (s ++ c ∷ r) ≡ s) × (beyond (s ++ c ∷ r) ≡ c ∷ r)
unfolding segment beyond has
segment-full [] c r h e = ground arith
segment-full (x ∷ s) c r h e = ground (arith, segment-full s c r (ground arith) e)

bind-pair :
    (o : Option (Str × Str)) (f : (Str × Str) → Option (Str × Str)) (b : Str × Str)
    → (o >>= f) ≡ some b
    → (m : Str) × (t : Str) × (o ≡ some (m, t)) × (f (m, t) ≡ some b)
bind-pair none f b h = cc
bind-pair (some (m, t)) f b h = (m, t, refl, h)

with_segment-some :
    (m t o r : Str)
    → with_segment m t ≡ some (o, r)
    → (is_empty (segment t) ≡ false) × (o ≡ m ++ segment t)
with_segment-some m t o r h = elim (Bool-cases (is_empty (segment t))) [
  | inl bare ↦ absurd (ground arith)
  | inr full ↦ (full, let e : m ++ segment t ≡ o = ground arith in cc)
]

-- The origin is found again in front of any text that starts with a stop character.
pub origin_match-behind :
    (s o r : Str) (c : ℕ) (r' : Str)
    → is_stop c ≡ true
    → origin_match s ≡ some (o, r)
    → origin_match (o ++ c ∷ r') ≡ some (o, c ∷ r')
unfolding origin_match
origin_match-behind s o r c r' stop h =
    let (m, t, e, f) = bind-pair (scheme s) _ (o, r) h in
    let (full, g) = with_segment-some m t o r f in
    rw
      (
        g,
        append_assoc m (segment t) (c ∷ r'),
        scheme-behind s m t (segment t ++ c ∷ r') e,
        (segment-behind t c r' stop).0,
        (segment-behind t c r' stop).1,
        full,
      )
      refl

pub origin-found :
    (relay_url o : Str)
    → origin relay_url ≡ some o
    → (r : Str) × (origin_match (trim relay_url) ≡ some (o, r))
unfolding origin
origin-found relay_url o h = found (origin_match (trim relay_url)) refl h
  where
    found :
        (x : Option (Str × Str))
        → origin_match (trim relay_url) ≡ x
        → first x ≡ some o
        → (r : Str) × (origin_match (trim relay_url) ≡ some (o, r))
    found none e g = cc
    found (some (a, b)) e g = let same : a ≡ o = cc in (b, e ∙ rw same)

-- A link that is written as the code writes it is matched part by part.
pub link_match-written :
    (relay_url o id fragment : Str)
    → origin relay_url ≡ some o
    → is_empty id ≡ false
    → has is_stop id ≡ false
    → is_empty fragment ≡ false
    → has is_line_end fragment ≡ false
    → link_match (o ++ (text "/j/" ++ (id ++ (hash ∷ fragment))))
      ≡ some (record { relay_url = o; id = id; fragment = fragment })
unfolding link_match eat
link_match-written relay_url o id fragment h e f g k =
    let (r, found) = origin-found relay_url o h in
    let (seg, past) = segment-full id hash fragment f refl in
    rw
      (
        origin_match-behind (trim relay_url) o r slash (text "j/" ++ (id ++ (hash ∷ fragment))) refl
            found,
        seg,
        past,
        e,
        g,
        k,
      )
      refl
