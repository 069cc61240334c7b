-- ===== src/Core/Invite.antt =====
-- Invite strings: `encodeInvite` and `parseInvite` of packages/core/src/invite.ts.
pub mod RoundTrip
pub mod Pattern
pub mod Matching
pub mod Links
pub mod Whole
pub mod Link
use randevu.Base.{
  ℕ, Bool, true, false, ◌||◌, not, List, [], ◌∷◌, ◌++◌, Str, text, str_eq, join_by, split_by, trim,
  if◌then◌else◌, ◌==◌,
}
use randevu.Base.Outcome.{Outcome, returns, throws, throw_if, ◌>>=◌, ◌>>◌}

pub record Invite : Type 0 where
  pub session_id : Str
  pub fingerprint : Str
  pub join_token : Str

abbrev pub prefix : Str
prefix = text "randevu"

abbrev pub colon : ℕ
colon = 58

-- s.includes(c)
unfoldable pub includes : ℕ → Str → Bool
includes c [] = false
includes c (x ∷ s) = x == c || includes c s

abbrev pub is_empty : Str → Bool
is_empty [] = true
is_empty (c ∷ s) = false

-- One round of the loop of `encodeInvite`.
abbrev check_field : Str → Str → Outcome (Unit {0})
check_field name value =
    throw_if (is_empty value || includes colon value) (text "invalid invite field: " ++ name)

unfoldable pub encode_invite : Invite → Outcome Str
unfolding includes
encode_invite invite = do
  check_field (text "sessionId") invite.session_id
  check_field (text "fingerprint") invite.fingerprint
  check_field (text "joinToken") invite.join_token
  returns (join_by colon (prefix ∷ invite.session_id ∷ invite.fingerprint ∷ invite.join_token ∷ []))

-- The tests of `parseInvite` on the parts.
unfoldable pub parse_parts : List Str → Outcome Invite
parse_parts (p ∷ session_id ∷ fingerprint ∷ join_token ∷ []) =
    if not (str_eq p prefix)
    then throws (text "malformed invite")
    else if is_empty session_id || is_empty fingerprint || is_empty join_token
    then throws (text "malformed invite")
    else returns
        (record { session_id = session_id; fingerprint = fingerprint; join_token = join_token })
parse_parts _ = throws (text "malformed invite")

unfoldable pub parse_invite : Str → Outcome Invite
unfolding parse_parts
parse_invite input = parse_parts (split_by colon (trim input))
