-- ===== src/Core/Invite/Link.antt =====
-- Join links: `JoinLink`, `encodeJoinLink` and `parseJoinLink` of packages/core/src/invite.ts.
use randevu.Base.{
  ℕ, zero, suc, ◌||◌, Option, none, some, List, [], ◌∷◌, ◌++◌, Str, text, join_by, split_by, trim,
  drop,
}
use randevu.Base.Options.{◌>>=◌ as ◌>>=?◌}
use randevu.Base.Outcome.{Outcome, returns, throws, throw_if, ◌>>=◌, ◌>>◌}
use randevu.Core.Invite.Pattern.{hash, dot, is_stop, has, origin, Match, link_match}
use randevu.Core.Invite.{Invite, includes, is_empty}

pub record JoinLink : Type 0 where
  pub relay_url : Str
  pub invite : Invite
  pub kind : Option Str

-- encodeURIComponent and decodeURIComponent, which throw on text that is not well formed.
pub record Uri : Type 0 where
  pub encode : Str → Option Str
  pub decode : Str → Option Str

-- The fragment's third part: nothing where there is no kind.
unfoldable pub kind_part : Uri → Str → Option Str
kind_part uri [] = some []
kind_part uri (c ∷ kind) = uri.encode (c ∷ kind) >>=? λ encoded. some (dot ∷ encoded)

abbrev pub some_or_throw {ℓ} : {A : Type ℓ} → Str → Option A → Outcome A
some_or_throw message none = throws message
some_or_throw message (some a) = returns a

unfoldable pub link_text : Str → Invite → Str → Str
link_text found invite part =
    found
    ++ (text "/j/"
        ++ (invite.session_id
            ++ (hash ∷ (invite.fingerprint ++ (dot ∷ (invite.join_token ++ part))))))

unfoldable pub encode_join_link : Uri → Str → Invite → Str → Outcome Str
unfolding includes has origin kind_part link_text
encode_join_link uri relay_url invite kind = do
  throw_if (is_empty invite.session_id || has is_stop invite.session_id)
      (text "invalid invite field: sessionId")
  throw_if (is_empty invite.fingerprint || includes dot invite.fingerprint)
      (text "invalid invite field: fingerprint")
  throw_if (is_empty invite.join_token || includes dot invite.join_token)
      (text "invalid invite field: joinToken")
  found ← some_or_throw (text "invalid relay url") (origin relay_url)
  part ← some_or_throw (text "URI malformed") (kind_part uri kind)
  returns (link_text found invite part)

-- parts[i] ?? ""
abbrev pub part_or_empty : ℕ → List Str → Str
part_or_empty i [] = []
part_or_empty zero (p ∷ ps) = p
part_or_empty (suc i) (p ∷ ps) = part_or_empty i ps

-- The kind's decoding, which is tried only where there are more than two parts.
abbrev pub kind_of_parts : Uri → List Str → Option (Option Str)
kind_of_parts uri [] = some none
kind_of_parts uri (p ∷ ps) = uri.decode (join_by dot (p ∷ ps)) >>=? λ kind. some (some kind)

-- `...(kind ? { kind } : {})`
abbrev pub truthy : Option Str → Option Str
truthy none = none
truthy (some []) = none
truthy (some (c ∷ s)) = some (c ∷ s)

unfoldable pub parse_match : Uri → Match → Outcome JoinLink
parse_match uri m =
    let parts = split_by dot m.fragment in
    let fingerprint = part_or_empty 0 parts in
    let join_token = part_or_empty 1 parts in
    do
      session_id ← some_or_throw (text "malformed join link") (uri.decode m.id)
      kind ← some_or_throw (text "malformed join link") (kind_of_parts uri (drop 2 parts))
      throw_if (is_empty session_id || is_empty fingerprint || is_empty join_token)
          (text "malformed join link")
      returns (record {
        relay_url = m.relay_url;
        invite = record {
          session_id = session_id;
          fingerprint = fingerprint;
          join_token = join_token;
        };
        kind = truthy kind;
      })

unfoldable pub parse_join_link : Uri → Str → Outcome JoinLink
unfolding link_match parse_match
parse_join_link uri link = do
  m ← some_or_throw (text "malformed join link") (link_match (trim link))
  parse_match uri m
