-- ===== src/Core/Invite/Whole.antt =====
-- What parseJoinLink of packages/core/src/invite.ts accepts is a whole link.
use randevu.Base.{
  ℕ, zero, suc, All, split_by-parts, ◌≢◌, Bool, true, false, ◌||◌, Option, none, some, List, [],
  ◌∷◌, Str, text, split_by, trim, Free, ◌≡◌, refl, arith, drop,
}
use randevu.Base.Outcome.{Outcome, returns, throws, throw_if, ◌>>=◌}
use randevu.Core.Invite.Link.{
  JoinLink, Uri, some_or_throw, part_or_empty, kind_of_parts, truthy, parse_match, parse_join_link,
}
use randevu.Core.Invite.Pattern.{dot, Match, link_match}
use randevu.Core.Invite.RoundTrip.{includes_of_Free}
use randevu.Core.Invite.{includes, is_empty}

-- What a join link must have to be joined with.
abbrev pub IsWhole : Outcome JoinLink → Type 0
IsWhole (returns l) =
    (is_empty l.invite.session_id ≡ false)
    × (is_empty l.invite.fingerprint ≡ false)
    × (is_empty l.invite.join_token ≡ false)
    × (includes dot l.invite.fingerprint ≡ false)
    × (includes dot l.invite.join_token ≡ false)
    × (l.kind ≢ some [])
IsWhole (throws e) = e ≡ text "malformed join link"

part-dotless :
    (i : ℕ) (ps : List Str) → All (Free dot) ps → includes dot (part_or_empty i ps) ≡ false
part-dotless i [] h = unfold includes in refl
part-dotless zero (p ∷ ps) h = includes_of_Free dot p h.0
part-dotless (suc i) (p ∷ ps) h = part-dotless i ps h.1

truthy_full : (o : Option Str) → truthy o ≢ some []
truthy_full none h = cc
truthy_full (some []) h = cc
truthy_full (some (c ∷ s)) h = cc

parse_match-IsWhole : (uri : Uri) (m : Match) → IsWhole (parse_match uri m)
unfolding parse_match
parse_match-IsWhole uri m =
    decoded (uri.decode m.id) (kind_of_parts uri (drop 2 (split_by dot m.fragment)))
  where
    fp : Str
    fp = part_or_empty 0 (split_by dot m.fragment)

    tk : Str
    tk = part_or_empty 1 (split_by dot m.fragment)

    checked :
        (id : Str) (kind : Option Str) (b : Bool)
        → (is_empty id || is_empty fp || is_empty tk) ≡ b
        → IsWhole (
            throw_if b (text "malformed join link") >>= λ _. returns (record {
              relay_url = m.relay_url;
              invite = record { session_id = id; fingerprint = fp; join_token = tk };
              kind = truthy kind;
            }))
    checked id kind true h = refl
    checked id kind false h =
        let whole : (is_empty id ≡ false) × (is_empty fp ≡ false) × (is_empty tk ≡ false) =
          ground arith in
        (
          whole.0,
          whole.1,
          whole.2,
          part-dotless 0 _ (split_by-parts dot m.fragment),
          part-dotless 1 _ (split_by-parts dot m.fragment),
          truthy_full kind,
        )

    decoded :
        (a : Option Str) (b : Option (Option Str))
        → IsWhole (
            some_or_throw (text "malformed join link") a >>= λ id.
            some_or_throw (text "malformed join link") b >>= λ kind.
            throw_if (is_empty id || is_empty fp || is_empty tk) (text "malformed join link")
            >>= λ _. returns (record {
              relay_url = m.relay_url;
              invite = record { session_id = id; fingerprint = fp; join_token = tk };
              kind = truthy kind;
            }))
    decoded none b = refl
    decoded (some id) none = refl
    decoded (some id) (some kind) = checked id kind (is_empty id || is_empty fp || is_empty tk) refl

-- A link that is parsed has a session, a fingerprint and a token, the last two without dots, and no
-- kind that is empty; every other link throws the one error.
pub parse_join_link-IsWhole : (uri : Uri) (link : Str) → IsWhole (parse_join_link uri link)
unfolding parse_join_link
parse_join_link-IsWhole uri link = matched (link_match (trim link))
  where
    matched :
        (o : Option Match)
        → IsWhole (some_or_throw (text "malformed join link") o >>= parse_match uri)
    matched none = refl
    matched (some m) = parse_match-IsWhole uri m
