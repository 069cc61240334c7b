-- ===== src/Core/Invite/RoundTrip.antt =====
-- An invite survives its encoding, and a parsed invite encodes to the text it was read from.
use mathlib.Core.List.{reverse, reverse-append, reverse-cons}
use randevu.Base.{
  ℕ, Bool, true, false, ◌||◌, not, List, [], ◌∷◌, ◌++◌, Str, text, str_eq, str_eq_iff, str_eq_refl,
  join_by, split_by, split_by-join_by, join_by-split_by, split_by-parts, trim, trim-solid,
  StartsSolid, is_space, Free, All, if◌then◌else◌, ◌≡◌, refl, ap, append_assoc, subst, ◌∙◌, arith,
}
use randevu.Base.Outcome.{returns, throws, throw_if, ◌>>=◌}
use randevu.Core.Invite.{
  Invite, prefix, colon, includes, is_empty, encode_invite, parse_parts, parse_invite,
}

pub Free-of_includes : (c : ℕ) (s : Str) → includes c s ≡ false → Free c s
unfolding includes
Free-of_includes c [] h = tt
Free-of_includes c (x ∷ s) h = (ground arith, Free-of_includes c s (ground arith))

pub includes_of_Free : (c : ℕ) (s : Str) → Free c s → includes c s ≡ false
unfolding includes
includes_of_Free c [] h = refl
includes_of_Free c (x ∷ s) h = ground (arith, includes_of_Free c s h.1)

solid-append : (s t : Str) → is_empty s ≡ false → StartsSolid s → StartsSolid (s ++ t)
solid-append [] t e h = absurd (cc)
solid-append (c ∷ s) t e h = h

ends-append :
    (s t : Str)
    → is_empty (reverse t) ≡ false
    → StartsSolid (reverse t)
    → StartsSolid (reverse (s ++ t))
ends-append s t e h = rw (reverse-append s t) (solid-append (reverse t) (reverse s) e h)

-- What `encodeInvite` accepts, field by field.
pub record IsPlain (invite : Invite) : Type 0 where
  pub session_id : (is_empty invite.session_id || includes colon invite.session_id) ≡ false
  pub fingerprint : (is_empty invite.fingerprint || includes colon invite.fingerprint) ≡ false
  pub join_token : (is_empty invite.join_token || includes colon invite.join_token) ≡ false

abbrev pub written : Invite → Str
written invite =
    join_by colon (prefix ∷ invite.session_id ∷ invite.fingerprint ∷ invite.join_token ∷ [])

encode_invite-returns :
    (invite : Invite) (s : Str)
    → encode_invite invite ≡ returns s
    → IsPlain invite × (s ≡ written invite)
unfolding encode_invite
encode_invite-returns invite s h =
    checked (is_empty invite.session_id || includes colon invite.session_id)
      (is_empty invite.fingerprint || includes colon invite.fingerprint)
      (is_empty invite.join_token || includes colon invite.join_token) refl refl refl h
  where
    checked :
        (a b c : Bool)
        → (is_empty invite.session_id || includes colon invite.session_id) ≡ a
        → (is_empty invite.fingerprint || includes colon invite.fingerprint) ≡ b
        → (is_empty invite.join_token || includes colon invite.join_token) ≡ c
        → (throw_if a (text "invalid invite field: " ++ text "sessionId") >>= λ _.
            throw_if b (text "invalid invite field: " ++ text "fingerprint") >>= λ _.
            throw_if c (text "invalid invite field: " ++ text "joinToken") >>= λ _.
            returns (written invite))
          ≡ returns s
        → IsPlain invite × (s ≡ written invite)
    checked false false false p q r e =
        (record { session_id = p; fingerprint = q; join_token = r }, cc)
    checked true b c p q r e = cc
    checked false true c p q r e = cc
    checked false false true p q r e = cc

encode_invite-plain :
    (invite : Invite) → IsPlain invite → encode_invite invite ≡ returns (written invite)
unfolding encode_invite
encode_invite-plain invite p = rw (p.session_id, p.fingerprint, p.join_token)

plain_Free : (s : Str) → (is_empty s || includes colon s) ≡ false → Free colon s
plain_Free s h = Free-of_includes colon s (ground arith)

prefix-Free : Free colon prefix
prefix-Free = Free-of_includes colon prefix (unfold includes in refl)

reverse_full : (s : Str) → is_empty s ≡ false → is_empty (reverse s) ≡ false
reverse_full [] h = cc
reverse_full (c ∷ s) h = rw (reverse-cons c s) (snoc_full (reverse s) c)
  where
    snoc_full : (t : Str) (c : ℕ) → is_empty (t ++ c ∷ []) ≡ false
    snoc_full [] c = refl
    snoc_full (x ∷ t) c = refl

-- A text with something in it that does not end in white space.
abbrev EndsSolid : Str → Type 0
EndsSolid t = (is_empty (reverse t) ≡ false) × StartsSolid (reverse t)

ends-append_cons : (s t : Str) → EndsSolid t → EndsSolid (s ++ colon ∷ t)
ends-append_cons s t h = subst EndsSolid (append_assoc s (colon ∷ []) t) (
  reverse_full ((s ++ colon ∷ []) ++ t) (full (s ++ colon ∷ []) t h.0),
  ends-append (s ++ colon ∷ []) t h.0 h.1,
)
  where
    full : (u v : Str) → is_empty (reverse v) ≡ false → is_empty (u ++ v) ≡ false
    full [] [] e = e
    full [] (c ∷ v) e = refl
    full (c ∷ u) v e = refl

-- What is written ends as its token does.
written-ends :
    (invite : Invite)
    → is_empty invite.join_token ≡ false
    → StartsSolid (reverse invite.join_token)
    → StartsSolid (reverse (written invite))
unfolding join_by
written-ends invite e h =
    (ends-append_cons prefix
      (invite.session_id ++ colon ∷ (invite.fingerprint ++ colon ∷ invite.join_token))
      (ends-append_cons invite.session_id (invite.fingerprint ++ colon ∷ invite.join_token) (
        ends-append_cons invite.fingerprint invite.join_token
          (reverse_full invite.join_token e, h)))).1

first_false : (a b : Bool) → (a || b) ≡ false → a ≡ false
first_false a b h = ground arith

-- An encoded invite whose token does not end in white space is parsed back.
pub parse-encode :
    (invite : Invite) (s : Str)
    → encode_invite invite ≡ returns s
    → StartsSolid (reverse invite.join_token)
    → parse_invite s ≡ returns invite
unfolding parse_invite
parse-encode invite s h solid =
    let (p, e) = encode_invite-returns invite s h in
    let empty_id : is_empty invite.session_id ≡ false =
      first_false (is_empty invite.session_id) (includes colon invite.session_id) p.session_id in
    let empty_fp : is_empty invite.fingerprint ≡ false =
      first_false (is_empty invite.fingerprint) (includes colon invite.fingerprint) p.fingerprint in
    let empty_token : is_empty invite.join_token ≡ false =
      first_false (is_empty invite.join_token) (includes colon invite.join_token) p.join_token in
    let trimmed : trim s ≡ written invite =
      ap trim e
      ∙ trim-solid (written invite) (unfold join_by is_space in refl)
          (written-ends invite empty_token solid) in
    rw
      (
        trimmed,
        split_by-join_by colon prefix
            (invite.session_id ∷ invite.fingerprint ∷ invite.join_token ∷ []) prefix-Free
            (
              plain_Free _ p.session_id,
              (plain_Free _ p.fingerprint, (plain_Free _ p.join_token, tt)),
            ),
      )
      (rw (str_eq_refl prefix, empty_id, empty_fp, empty_token))

triple : Str → Str → Str → Invite
triple a b c = record { session_id = a; fingerprint = b; join_token = c }

parsed :
    (marked bare : Bool) (found invite : Invite)
    → (if not marked
        then throws (text "malformed invite")
        else if bare
        then throws (text "malformed invite")
        else returns found)
      ≡ returns invite
    → (marked ≡ true) × (bare ≡ false) × (found ≡ invite)
parsed true false found invite h = (refl, refl, cc)
parsed true true found invite h = cc
parsed false bare found invite h = cc

none_bare : (a b c : Bool) → (a || b || c) ≡ false → (a ≡ false) × (b ≡ false) × (c ≡ false)
none_bare a b c h = ground arith

triple-IsPlain :
    (a b c : Str)
    → All (Free colon) (a ∷ b ∷ c ∷ [])
    → (is_empty a || is_empty b || is_empty c) ≡ false
    → IsPlain (triple a b c)
unfolding triple
triple-IsPlain a b c f h =
    let (ea, eb, ec) = none_bare (is_empty a) (is_empty b) (is_empty c) h in
    record {
      session_id = ground (arith, includes_of_Free colon a f.0);
      fingerprint = ground (arith, includes_of_Free colon b f.1.0);
      join_token = ground (arith, includes_of_Free colon c f.1.1.0);
    }

parts-encode :
    (ps : List Str) (invite : Invite)
    → All (Free colon) ps
    → parse_parts ps ≡ returns invite
    → encode_invite invite ≡ returns (join_by colon ps)
unfolding parse_parts
parts-encode (p ∷ a ∷ b ∷ c ∷ []) invite f h =
    let (marked, bare, same) =
      parsed (str_eq p prefix) (is_empty a || is_empty b || is_empty c) (triple a b c) invite
        (unfold triple in h) in
    rw ((str_eq_iff p prefix).0 marked, ← same)
      (encode_invite-plain (triple a b c) (triple-IsPlain a b c f.1 bare) ∙ unfold triple in refl)
parts-encode (p ∷ a ∷ b ∷ c ∷ d ∷ ps) invite f h = cc
parts-encode (p ∷ a ∷ b ∷ []) invite f h = cc
parts-encode (p ∷ a ∷ []) invite f h = cc
parts-encode (p ∷ []) invite f h = cc
parts-encode [] invite f h = cc

-- What `parseInvite` accepts is, but for white space at its ends, the encoding of what it returns.
pub encode-parse :
    (s : Str) (invite : Invite)
    → parse_invite s ≡ returns invite
    → encode_invite invite ≡ returns (trim s)
unfolding parse_invite
encode-parse s invite h =
    parts-encode (split_by colon (trim s)) invite (split_by-parts colon (trim s)) h
    ∙ ap returns (join_by-split_by colon (trim s))
