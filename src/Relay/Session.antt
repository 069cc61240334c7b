-- ===== src/Relay/Session.antt =====
-- The session logic of the relay: the class `Session` of apps/relay/src/session.ts. A method is a
-- function of the store that gives its result and the store it leaves; a thrown `SessionError` is
-- `err`, and what was written before it stays written. Durable Object storage serializes the
-- calls, so each runs alone.
pub mod Data
pub mod Room
pub mod Refines
pub mod Posting
mod Members
pub mod Opening
pub mod Joining
pub mod Keying
pub mod History
unfoldable pub use Data.*
use randevu.Base.{
  ℕ, zero, suc, ◌+◌, ◌<◌, Bool, true, false, not, Option, none, some, is_some, List, [], ◌∷◌, map,
  length, Str, str_eq, ltb, leb, ==_iff, if◌then◌else◌,
}
use randevu.Base.Numbered.{newer_by, sort_by, last_by}
use randevu.Noble.{Noble}
use randevu.Relay.Store.{Store, get, put, list}
use randevu.Relay.Keys.{Key, meta, seq, member, token, msg, gkey, key, member_prefix, msg_prefix}

-- function sha256Hex
unfoldable pub sha256_hex : Noble → Str → Str
sha256_hex noble input = noble.bytes_to_hex (noble.sha256 (noble.utf8_to_bytes input))

-- Typed reads of the store. A session only ever writes a key's own kind of value under it.
unfoldable pub meta_of : Store Value → Option SessionMeta
meta_of st = as_meta (get st (key meta))

-- `(await store.get<number>(KEY.seq)) ?? 0`
unfoldable pub seq_of : Store Value → ℕ
seq_of st = or_zero (as_number (get st (key seq)))

unfoldable pub member_of : Store Value → Str → Option Member
member_of st fp = as_member (get st (key (member fp)))

unfoldable pub token_of : Store Value → Str → Bool
token_of st hash = as_flag (get st (key (token hash)))

unfoldable pub key_of : Store Value → ℕ → Str → Option StoredWrappedKey
key_of st epoch fp = as_wrapped (get st (key (gkey epoch fp)))

-- sort((a, b) => a.joinedSeq - b.joinedSeq), which is stable
unfoldable pub insert_member : Member → List Member → List Member
insert_member m [] = m ∷ []
insert_member m (n ∷ ns) =
    if ltb n.joined_seq m.joined_seq then n ∷ insert_member m ns else m ∷ n ∷ ns

unfoldable pub sort_members : List Member → List Member
unfolding insert_member
sort_members [] = []
sort_members (m ∷ ms) = insert_member m (sort_members ms)

-- sort((a, b) => a.seq - b.seq)
unfoldable pub sort_messages : List StoredMessage → List StoredMessage
sort_messages = sort_by (λ m. m.seq)

-- filter((m) => m.seq > afterSeq)
unfoldable pub newer : ℕ → List StoredMessage → List StoredMessage
newer = newer_by (λ m. m.seq)

-- messages[messages.length - 1].seq, or the cursor that was given
unfoldable pub last_seq : ℕ → List StoredMessage → ℕ
last_seq = last_by (λ m. m.seq)

unfoldable pub init : Noble → Store Value → InitInput → Str → Result InitResult × Store Value
unfolding meta_of sha256_hex
init noble st input join_token =
    if is_some (meta_of st)
    then (err 409 "session_exists", st)
    else if ltb input.max_members 2
    then (err 400 "max_members_too_small", st)
    else (let new_meta : SessionMeta = record {
      session_id = input.session_id;
      max_members = input.max_members;
      locked = false;
      epoch = 0;
      creator_id = input.creator.fingerprint;
    } in
        let st1 = put st (key meta) (meta_value new_meta) in
        let st2 = put st1 (key seq) (number_value 0) in
        let st3 =
          put st2 (key (member input.creator.fingerprint))
            (member_value (record { input = input.creator; joined_seq = 0 })) in
        let st4 = put st3 (key (token (sha256_hex noble join_token))) (flag_value true) in
        (
          ok (record {
            session_id = input.session_id;
            join_token = join_token;
            member_id = input.creator.fingerprint;
          }),
          st4,
        ))

unfoldable pub members : Store Value → List Member
unfolding sort_members
members st = sort_members (member_values (list st member_prefix none))

-- The part of `join` behind its guards.
unfoldable pub admit : Store Value → SessionMeta → MemberInput → Result JoinResult × Store Value
unfolding seq_of members
admit st m input =
    let st1 =
      put st (key (member input.fingerprint))
        (member_value (record { input = input; joined_seq = seq_of st })) in
    let epoch = m.epoch + 1 in
    let all = members st1 in
    let locked = if leb m.max_members (length all) then true else m.locked in
    (
      ok (record { members = all; epoch = epoch; locked = locked }),
      put st1 (key meta) (meta_value (record m { locked = locked; epoch = epoch })),
    )

unfoldable pub join : Noble → Store Value → JoinInput → Result JoinResult × Store Value
unfolding meta_of token_of member_of sha256_hex admit
join noble st input = elim (meta_of st) [
  | none ↦ (err 404 "session_not_found", st)
  | some m ↦
      if m.locked
      then (err 423 "session_locked", st)
      else if not (token_of st (sha256_hex noble input.join_token))
      then (err 403 "invalid_join_token", st)
      else if is_some (member_of st input.member.fingerprint)
      then (err 409 "member_exists", st)
      else admit st m input.member
]

unfoldable pub member_identity_pub : Store Value → Str → Option Str
unfolding member_of
member_identity_pub st fp = elim (member_of st fp) [ none ↦ none | some m ↦ some m.identity_pub ]

unfoldable pub post_message : Store Value → MessageInput → Result ℕ × Store Value
unfolding meta_of member_of seq_of
post_message st input =
    if not (is_some (meta_of st))
    then (err 404 "session_not_found", st)
    else if not (is_some (member_of st input.sender_id))
    then (err 403 "not_a_member", st)
    else (let n = seq_of st + 1 in
        let st1 = put st (key seq) (number_value n) in
        (ok n, put st1 (key (msg n)) (message_value (record { input = input; seq = n }))))

unfoldable pub get_messages : Store Value → ℕ → Result Batch × Store Value
unfolding meta_of sort_messages newer last_seq
get_messages st after =
    if not (is_some (meta_of st))
    then (err 404 "session_not_found", st)
    else (let start : Option Str = if ltb 0 after then some (key (msg (after + 1))) else none in
        let found = sort_messages (newer after (message_values (list st msg_prefix start))) in
        (ok (record { messages = found; cursor = last_seq after found }), st))

-- the loop of `postKeys`
unfoldable pub put_wraps : Store Value → KeysInput → List Wrap → Store Value
put_wraps st input [] = st
put_wraps st input (w ∷ ws) =
    put_wraps
      (put st (key (gkey input.epoch w.recipient_id)) (
        wrapped_value (record {
          wrapped_key = w.wrapped_key;
          commitment = input.key_commitment;
          signature = input.signature;
        })))
      input ws

unfoldable pub post_keys : Store Value → KeysInput → Result (Unit {0}) × Store Value
unfolding meta_of member_of put_wraps
post_keys st input = elim (meta_of st) [
  | none ↦ (err 404 "session_not_found", st)
  | some m ↦
      if not (is_some (member_of st input.sender_id))
      then (err 403 "not_a_member", st)
      else if not (str_eq input.sender_id m.creator_id)
      then (err 403 "not_key_holder", st)
      else (ok tt, put_wraps st input input.wraps)
]

abbrev found_key : Option StoredWrappedKey → Result StoredWrappedKey
found_key none = err 404 "key_not_found"
found_key (some entry) = ok entry

unfoldable pub get_key : Store Value → ℕ → Str → Result StoredWrappedKey × Store Value
unfolding meta_of key_of
get_key st epoch member_id =
    if not (is_some (meta_of st))
    then (err 404 "session_not_found", st)
    else (found_key (key_of st epoch member_id), st)

unfoldable pub status : Store Value → Result Status × Store Value
unfolding meta_of seq_of members
status st = elim (meta_of st) [
  | none ↦ (err 404 "session_not_found", st)
  | some m ↦ (
    ok (record {
      session_id = m.session_id;
      creator_id = m.creator_id;
      locked = m.locked;
      epoch = m.epoch;
      members = members st;
      last_seq = seq_of st;
    }),
    st,
  )
]
