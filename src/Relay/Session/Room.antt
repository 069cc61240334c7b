-- ===== src/Relay/Session/Room.antt =====
-- What a session promises, with no store: a room with its members in the order of joining, a log
-- of messages numbered from 1, and the wrapped keys by epoch and member.
use randevu.Base.{
  ℕ, ◌+◌, Bool, true, not, Option, none, some, is_some, List, [], ◌∷◌, ◌++◌, length, Str, str_eq,
  leb, ◌==◌, ◌&&◌, if◌then◌else◌,
}
use randevu.Relay.Session.Data.{
  MemberInput, Member, SessionMeta, StoredWrappedKey, MessageInput, StoredMessage, Result, ok, err,
  KeysInput, Wrap,
}

pub record Room : Type 0 where
  pub meta : SessionMeta
  pub members : List Member
  pub log : List StoredMessage
  pub tokens : Str → Bool
  pub wrapped : ℕ → Str → Option StoredWrappedKey

unfoldable pub find_member : Str → List Member → Option Member
find_member fp [] = none
find_member fp (m ∷ ms) = if str_eq m.fingerprint fp then some m else find_member fp ms

-- A room as its creator leaves it.
unfoldable pub opened : SessionMeta → MemberInput → Str → Room
opened m creator hash = record {
  meta = m;
  members = record { input = creator; joined_seq = 0 } ∷ [];
  log = [];
  tokens = λ h. str_eq hash h;
  wrapped = λ e fp. none;
}

unfoldable pub post : Room → MessageInput → Result ℕ × Room
unfolding find_member
post r input =
    if is_some (find_member input.sender_id r.members)
    then (
      ok (length r.log + 1),
      record r { log = r.log ++ record { input = input; seq = length r.log + 1 } ∷ [] },
    )
    else (err 403 "not_a_member", r)

-- The room with one member more: the epoch goes up, and a full room locks.
unfoldable pub admitted : Room → MemberInput → Room
admitted r input = record r {
  meta = record m {
    epoch = m.epoch + 1;
    locked = if leb m.max_members (length r.members + 1) then true else m.locked;
  };
  members = r.members ++ record { input = input; joined_seq = length r.log } ∷ [];
}
  where
    m : SessionMeta
    m = r.meta

unfoldable pub enter : Room → Str → MemberInput → Result (ℕ × Bool) × Room
unfolding find_member
enter r hash input =
    if r.meta.locked
    then (err 423 "session_locked", r)
    else if not (r.tokens hash)
    then (err 403 "invalid_join_token", r)
    else if is_some (find_member input.fingerprint r.members)
    then (err 409 "member_exists", r)
    else (ok ((admitted r input).meta.epoch, (admitted r input).meta.locked), admitted r input)

unfoldable pub share : Room → KeysInput → List Wrap → Room
share r input [] = r
share r input (w ∷ ws) =
    share
      (record r {
        wrapped = λ e fp.
            if (input.epoch == e) && str_eq w.recipient_id fp
            then some (record {
              wrapped_key = w.wrapped_key;
              commitment = input.key_commitment;
              signature = input.signature;
            })
            else r.wrapped e fp;
      })
      input ws

unfoldable pub distribute : Room → KeysInput → Result (Unit {0}) × Room
unfolding find_member share
distribute r input =
    if not (is_some (find_member input.sender_id r.members))
    then (err 403 "not_a_member", r)
    else if not (str_eq input.sender_id r.meta.creator_id)
    then (err 403 "not_key_holder", r)
    else (ok tt, share r input input.wraps)
