-- ===== src/Core/Invite/Links.antt =====
-- A join link survives its encoding.
use randevu.Base.{
  ℕ, Bool, true, false, ◌||◌, Option, none, some, List, [], ◌∷◌, ◌++◌, Str, text, join_by, split_by,
  split_by-append, split_by-Free, split_by-ne-nil, join_by-split_by, trim, ◌≡◌, refl, sym, ap, ◌∙◌,
  append-nil, arith,
}
use randevu.Base.Options.{◌>>=◌ as ◌>>=?◌, bind-some}
use randevu.Base.Outcome.{Outcome, returns, throw_if, ◌>>=◌}
use randevu.Core.Invite.Link.{
  JoinLink, Uri, kind_part, some_or_throw, link_text, encode_join_link, kind_of_parts, truthy,
  parse_match, parse_join_link,
}
use randevu.Core.Invite.Matching.{link_match-written}
use randevu.Core.Invite.Pattern.{hash, dot, is_stop, is_line_end, has, origin, link_match}
use randevu.Core.Invite.RoundTrip.{Free-of_includes}
use randevu.Core.Invite.{Invite, includes, is_empty}

-- What `encodeJoinLink` accepts.
record IsLinkable (invite : Invite) : Type 0 where
  id : (is_empty invite.session_id || has is_stop invite.session_id) ≡ false
  fingerprint : (is_empty invite.fingerprint || includes dot invite.fingerprint) ≡ false
  token : (is_empty invite.join_token || includes dot invite.join_token) ≡ false

-- What decodeURIComponent promises of encodeURIComponent.
abbrev pub Undoes : Uri → Type 0
Undoes uri = (k e : Str) → uri.encode k ≡ some e → uri.decode e ≡ some k

throw_if-returns {ℓ} :
    {A : Type ℓ} (b : Bool) (e : Str) (k : Outcome A) (a : A)
    → (throw_if b e >>= λ _. k) ≡ returns a
    → (b ≡ false) × (k ≡ returns a)
throw_if-returns true e k a h = cc
throw_if-returns false e k a h = (refl, h)

some_or_throw-returns {ℓ κ} :
    {A : Type ℓ} {B : Type κ} (e : Str) (o : Option A) (k : A → Outcome B) (b : B)
    → (some_or_throw e o >>= k) ≡ returns b
    → (a : A) × (o ≡ some a) × (k a ≡ returns b)
some_or_throw-returns e none k b h = cc
some_or_throw-returns e (some a) k b h = (a, refl, h)

encode_join_link-returns :
    (uri : Uri) (relay_url : Str) (invite : Invite) (kind s : Str)
    → encode_join_link uri relay_url invite kind ≡ returns s
    → IsLinkable invite
      × ((o : Str) × (part : Str) × (origin relay_url ≡ some o)
          × (kind_part uri kind ≡ some part)
          × (link_text o invite part ≡ s))
unfolding encode_join_link
encode_join_link-returns uri relay_url invite kind s h =
    let (id, h1) = throw_if-returns _ _ _ s h in
    let (fp, h2) = throw_if-returns _ _ _ s h1 in
    let (tk, h3) = throw_if-returns _ _ _ s h2 in
    let (o, e, h4) = some_or_throw-returns _ (origin relay_url) _ s h3 in
    let (part, f, h5) = some_or_throw-returns _ (kind_part uri kind) _ s h4 in
    (record { id = id; fingerprint = fp; token = tk }, (o, part, e, f, cc))

has-behind :
    (f : ℕ → Bool) (s t : Str) → has f (s ++ t) ≡ false → (has f s ≡ false) × (has f t ≡ false)
unfolding has
has-behind f [] t h = (refl, h)
has-behind f (c ∷ s) t h = ground (arith, has-behind f s t (ground arith))

-- The parts behind the second are one kind, whatever dots it holds.
kind_of_parts-split :
    (uri : Uri) (e : Str)
    → kind_of_parts uri (split_by dot e) ≡ (uri.decode e >>=? λ kind. some (some kind))
kind_of_parts-split uri e = joined (split_by dot e) refl
  where
    joined :
        (ps : List Str)
        → split_by dot e ≡ ps
        → kind_of_parts uri ps ≡ (uri.decode e >>=? λ kind. some (some kind))
    joined [] h = absurd (split_by-ne-nil dot e h)
    joined (p ∷ ps) h =
        let whole : join_by dot (p ∷ ps) ≡ e = ap (join_by dot) (sym h) ∙ join_by-split_by dot e in
        rw whole refl

abbrev fragment_of : Invite → Str → Str
fragment_of invite part = invite.fingerprint ++ (dot ∷ (invite.join_token ++ part))

parts_of :
    (fp tk part : Str)
    → includes dot fp ≡ false
    → split_by dot (fp ++ (dot ∷ (tk ++ part))) ≡ fp ∷ split_by dot (tk ++ part)
parts_of fp tk part e = split_by-append dot fp (tk ++ part) (Free-of_includes dot fp e)

-- The token and the kind, from the fragment's tail.
abbrev Tail : Uri → Str → Str → Str → Type 0
Tail uri tk kind part =
    (rest : List Str) × (o : Option Str) × (split_by dot (tk ++ part) ≡ tk ∷ rest)
    × (kind_of_parts uri rest ≡ some o)
    × (truthy o ≡ truthy (some kind))

tail_of :
    (uri : Uri) (tk kind part : Str)
    → Undoes uri
    → includes dot tk ≡ false
    → kind_part uri kind ≡ some part
    → Tail uri tk kind part
unfolding kind_part
tail_of uri tk [] part u e h =
    let bare : [] ≡ part = cc in
    (
      [],
      none,
      rw (← bare, append-nil tk) (split_by-Free dot tk (Free-of_includes dot tk e)),
      refl,
      refl,
    )
tail_of uri tk (c ∷ kind) part u e h =
    let (encoded, (f, g)) = bind-some (uri.encode (c ∷ kind)) _ h in
    let same : dot ∷ encoded ≡ part = cc in
    (
      split_by dot encoded,
      some (c ∷ kind),
      rw (← same) (split_by-append dot tk encoded (Free-of_includes dot tk e)),
      rw (kind_of_parts-split uri encoded, u (c ∷ kind) encoded f) refl,
      refl,
    )

both_false : (a b : Bool) → (a || b) ≡ false → (a ≡ false) × (b ≡ false)
both_false a b h = ground arith

abbrev pub linked : Str → Invite → Str → JoinLink
linked o invite kind = record { relay_url = o; invite = invite; kind = truthy (some kind) }

parse_match-written :
    (uri : Uri) (o : Str) (invite : Invite) (kind part : Str)
    → IsLinkable invite
    → Undoes uri
    → uri.decode invite.session_id ≡ some invite.session_id
    → kind_part uri kind ≡ some part
    → parse_match uri
        (record { relay_url = o; id = invite.session_id; fragment = fragment_of invite part })
      ≡ returns (linked o invite kind)
unfolding parse_match
parse_match-written uri o invite kind part ok u d h =
    let (id, _) = both_false (is_empty invite.session_id) (has is_stop invite.session_id) ok.id in
    let (fp, dotless) = both_false _ (includes dot invite.fingerprint) ok.fingerprint in
    let (tk, bare) = both_false _ (includes dot invite.join_token) ok.token in
    let (rest, given, e, f, g) = tail_of uri invite.join_token kind part u bare h in
    rw (parts_of invite.fingerprint invite.join_token part dotless, e, d, f, id, fp, tk, g) refl

full-append : (s t : Str) → is_empty s ≡ false → is_empty (s ++ t) ≡ false
full-append [] t h = cc
full-append (c ∷ s) t h = refl

fragment-IsLine :
    (o : Str) (invite : Invite) (part : Str)
    → has is_line_end (link_text o invite part) ≡ false
    → has is_line_end (fragment_of invite part) ≡ false
unfolding link_text
fragment-IsLine o invite part h =
    let frag = fragment_of invite part in
    let (_, h1) = has-behind is_line_end o _ h in
    let (_, h2) = has-behind is_line_end (text "/j/") _ h1 in
    let (_, h3) = has-behind is_line_end invite.session_id (hash ∷ frag) h2 in
    (has-behind is_line_end (hash ∷ []) frag h3).1

-- A link that is encoded without white space at its ends and without line ends is parsed back to
-- the relay's origin, the invite and the kind, if decoding undoes encoding and keeps the session's
-- identifier as it is.
pub parse_join_link-encode_join_link :
    (uri : Uri) (relay_url o : Str) (invite : Invite) (kind s : Str)
    → encode_join_link uri relay_url invite kind ≡ returns s
    → origin relay_url ≡ some o
    → Undoes uri
    → uri.decode invite.session_id ≡ some invite.session_id
    → trim s ≡ s
    → has is_line_end s ≡ false
    → parse_join_link uri s ≡ returns (linked o invite kind)
unfolding parse_join_link link_text
parse_join_link-encode_join_link uri relay_url o invite kind s h found u d solid line =
    let (ok, (o', part, e, f, g)) = encode_join_link-returns uri relay_url invite kind s h in
    let same : o' ≡ o = cc in rw solid (rw (← g, same) (whole part ok f (rw (← same, g) line)))
  where
    whole :
        (part : Str)
        → IsLinkable invite
        → kind_part uri kind ≡ some part
        → has is_line_end (link_text o invite part) ≡ false
        → (some_or_throw (text "malformed join link") (link_match (link_text o invite part))
            >>= parse_match uri)
          ≡ returns (linked o invite kind)
    whole part ok f line =
        let frag = fragment_of invite part in
        let (id, stops) = both_false (is_empty invite.session_id) _ ok.id in
        let (fp, _) = both_false (is_empty invite.fingerprint) _ ok.fingerprint in
        rw
          (link_match-written relay_url o invite.session_id frag found id stops
            (full-append invite.fingerprint _ fp) (fragment-IsLine o invite part line))
          (parse_match-written uri o invite kind part ok u d f)
