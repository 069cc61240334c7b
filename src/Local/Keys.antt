-- ===== src/Local/Keys.antt =====
-- Opening and joining a session, and the group key: from `createSession` to `ensureKeys`.
pub mod Holder
pub mod Converging
pub mod Substitution
use randevu.Base.{
  ℕ, zero, suc, ◌+◌, Bool, true, false, not, ◌&&◌, ◌||◌, Option, none, some, is_some, List, [], ◌∷◌,
  ◌++◌, map, Str, text, str_eq, if◌then◌else◌, ◌==◌,
}
use randevu.Base.Outcome.{Outcome, returns, throws}
use randevu.Noble.{Noble, Bytes}
use randevu.Core.Crypto.{KeyPair, fingerprint, did_key_from_ed25519}
use randevu.Core.SealedBox.{wrap_group_key, unwrap_group_key}
use randevu.Core.GroupKey.{SignedCommitment, sign_group_key, verify_group_key}
use randevu.Core.Invite.{Invite, encode_invite, parse_invite}
use randevu.Relay.Store.{Store, get, put}
use randevu.Relay.Session.Data.{
  MemberInput, Member, KeysInput, Wrap, StoredWrappedKey, Status, JoinInput, JoinResult, InitResult,
}
use randevu.Local.Action.{
  Attempt, Action, done, fails, Fault, relay_error, error, foreign, then, ◌>>=◌, ◌>>◌, give, throw,
  or_foreign, require,
}
use randevu.Local.Data.{Local, MemberDto, Role, creator, member, Randoms}
use randevu.Local.Api.{RelayApi, Party, call, this, set, require_session}

unfoldable pub self_dto : Noble → Local → MemberDto
self_dto noble me = record {
  fingerprint = me.member_id;
  identity_pub = noble.bytes_to_hex me.identity.public_key;
  kx_pub = noble.bytes_to_hex me.agreement.public_key;
}

-- for (const m of members) this.membersById.set(m.fingerprint, m)
unfoldable pub cache_into : Store MemberDto → List MemberDto → Store MemberDto
cache_into st [] = st
cache_into st (m ∷ ms) = cache_into (put st m.fingerprint m) ms

unfoldable pub cache : List MemberDto → Local → Local
unfolding cache_into
cache ms me = record me { members_by_id = cache_into me.members_by_id ms }

-- Map.set on the keys by epoch
unfoldable pub set_epoch : ℕ → Bytes → List (ℕ × Bytes) → List (ℕ × Bytes)
set_epoch e k [] = (e, k) ∷ []
set_epoch e k ((f, l) ∷ ks) = if f == e then (e, k) ∷ ks else (f, l) ∷ set_epoch e k ks

abbrev pub dtos : List Member → List MemberDto
dtos ms = map (λ m. m.input) ms

-- `fingerprint(hexToBytes(pub)) !== expected`; the outer `none` is a throw
abbrev pub fingerprint_is : Noble → Str → Option Bytes → Option Bool
fingerprint_is noble expected none = none
fingerprint_is noble expected (some pub_key) = some (str_eq (fingerprint noble pub_key) expected)

-- res.members.find((m) => m.fingerprint === fp)
unfoldable pub find_dto : Str → List MemberDto → Option MemberDto
find_dto fp [] = none
find_dto fp (m ∷ ms) = if str_eq m.fingerprint fp then some m else find_dto fp ms

-- An `Error` of the pure functions.
abbrev pub of_outcome {ℓ} : {S : Type 0} {A : Type ℓ} → Outcome A → Action S A
of_outcome (returns a) = give a
of_outcome (throws e) = throw (error e)

abbrev pub of_found {ℓ} : {S : Type 0} {A : Type ℓ} → Str → Option A → Action S A
of_found message none = throw (error message)
of_found message (some a) = give a

-- The seals, each with an ephemeral key of its own.
unfoldable pub wraps_for : Noble → (ℕ → Bytes) → ℕ → Bytes → List MemberDto → Option (List Wrap)
wraps_for noble ephemeral i group_key [] = some []
wraps_for noble ephemeral i group_key (m ∷ ms) = elim (noble.hex_to_bytes m.kx_pub) [
  | none ↦ none
  | some kx ↦ elim (wrap_group_key noble (ephemeral i) group_key kx) [
    | none ↦ none
    | some sealed ↦
        with_wrap (record { recipient_id = m.fingerprint; wrapped_key = noble.bytes_to_hex sealed })
          (wraps_for noble ephemeral (i + 1) group_key ms)
  ]
]
  where
    with_wrap : Wrap → Option (List Wrap) → Option (List Wrap)
    with_wrap w none = none
    with_wrap w (some ws) = some (w ∷ ws)

-- The holder that the relay names must be the one pinned from the invite.
abbrev pub is_unexpected : Str → Str → Bool
is_unexpected [] creator_id = false
is_unexpected (c ∷ pinned) creator_id = not (str_eq creator_id (c ∷ pinned))

abbrev pub is_creator : Option Role → Bool
is_creator (some creator) = true
is_creator _ = false

-- status.epoch === this.establishedEpoch
abbrev pub same_epoch : Option ℕ → ℕ → Bool
same_epoch none e = false
same_epoch (some f) e = f == e

-- The catch clause of `ensureKeys`, and its last line: the key is there when the block ends.
abbrev pub not_posted : {S : Type 0} → Attempt (Unit {0}) × S → Attempt Bool × S
not_posted (done u, s) = (done true, s)
not_posted (fails (relay_error n code), s) =
    if n == 404 then (done false, s) else (fails (relay_error n code), s)
not_posted (fails e, s) = (fails e, s)

module _ {W : Type 0} (noble : Noble) (api : RelayApi W) where
  unfoldable pub create_session : ℕ → Action (Party W) (Str × Str × Invite)
  unfolding self_dto encode_invite
  create_session max_members = do
    me ← this
    res ← call (api.create_session max_members (self_dto noble me))
    set (λ me. record me {
      session_id = some res.session_id;
      role = some creator;
      creator_fingerprint = me.member_id;
    })
    set (λ me. cache (self_dto noble me ∷ []) me)
    let invite_obj : Invite = record {
      session_id = res.session_id;
      fingerprint = me.member_id;
      join_token = res.join_token;
    }
    invite ← of_outcome (encode_invite invite_obj)
    give (res.session_id, invite, invite_obj)

  unfoldable pub join_session : Str → Action (Party W) (Unit {0})
  unfolding self_dto parse_invite find_dto
  join_session invite = do
    parsed ← of_outcome (parse_invite invite)
    set (λ me. record me {
      session_id = some parsed.session_id;
      role = some member;
      creator_fingerprint = parsed.fingerprint;
    })
    me ← this
    res ← call (
        api.join_session parsed.session_id
          (record { join_token = parsed.join_token; member = self_dto noble me }))
    set (λ me. record me { epoch = res.epoch })
    holder ←
        of_found (text "creator not present in session")
          (find_dto parsed.fingerprint (dtos res.members))
    genuine ←
        or_foreign
          (fingerprint_is noble parsed.fingerprint (noble.hex_to_bytes holder.identity_pub))
    require genuine (text "creator fingerprint mismatch — possible MITM")
    set (cache (dtos res.members))

  unfoldable pub resolve_holder : Str → Action (Party W) MemberDto
  resolve_holder creator_id = do
    me ← this
    require (not (is_unexpected me.creator_fingerprint creator_id))
        (text "relay named an unexpected key-holder — possible substitution")
    of_found (text "key-holder not present in session") (get me.members_by_id creator_id)

  -- What `establishGroupKey` and `ensureKeys` share: a fresh key, signed, wrapped to every member and
  -- posted.
  unfoldable pub post_group_key : Randoms → Str → ℕ → List MemberDto → Action (Party W) (Unit {0})
  unfolding sign_group_key wraps_for
  post_group_key rand session_id epoch members = do
    me ← this
    let signed = sign_group_key noble session_id epoch rand.group_key me.identity.private_key
    wraps ← or_foreign (wraps_for noble rand.ephemeral 0 rand.group_key members)
    call (
        api.post_keys session_id (record {
          sender_id = me.member_id;
          epoch = epoch;
          key_commitment = signed.commitment;
          signature = signed.signature;
          wraps = wraps;
        }))
    set (λ me. record me {
      group_key = some rand.group_key;
      group_keys = set_epoch epoch rand.group_key me.group_keys;
      established_epoch = some epoch;
    })

  -- What `syncGroupKey` and `ensureKeys` share: the wrapped key, opened, and signed by the holder.
  unfoldable pub fetch_group_key : Str → ℕ → Str → Action (Party W) Bytes
  fetch_group_key session_id epoch creator_id = do
    me ← this
    entry ← call (api.get_key session_id epoch me.member_id)
    wrapped ← or_foreign (noble.hex_to_bytes entry.wrapped_key)
    group_key ← or_foreign (unwrap_group_key noble wrapped me.agreement)
    holder ← resolve_holder creator_id
    identity_pub ← or_foreign (noble.hex_to_bytes holder.identity_pub)
    require
        (verify_group_key noble session_id epoch group_key entry.commitment entry.signature
          identity_pub)
        (text "group key failed holder verification — possible relay/member substitution")
    give group_key

  unfoldable pub establish_group_key : Randoms → Action (Party W) (Unit {0})
  establish_group_key rand = do
    session_id ← require_session
    status ← call (api.status session_id)
    set (λ me. record me { epoch = status.epoch })
    set (cache (dtos status.members))
    post_group_key rand session_id status.epoch (dtos status.members)

  unfoldable pub sync_group_key : Action (Party W) (Unit {0})
  sync_group_key = do
    session_id ← require_session
    status ← call (api.status session_id)
    set (λ me. record me { epoch = status.epoch })
    set (cache (dtos status.members))
    group_key ← fetch_group_key session_id status.epoch status.creator_id
    set (λ me. record me {
      group_key = some group_key;
      group_keys = set_epoch status.epoch group_key me.group_keys;
    })

  -- The creator's branch of `ensureKeys`: a new key where there is none for this epoch.
  unfoldable pub renew_group_key : Randoms → Str → Status → Action (Party W) Bool
  renew_group_key rand session_id status = λ s.
      if not (is_some s.me.group_key) || not (same_epoch s.me.established_epoch status.epoch)
      then (do
        set (λ me. record me { epoch = status.epoch })
        post_group_key rand session_id status.epoch (dtos status.members)
        give true)
          s
      else (done true, s)

  -- The member's branch: a key that is not posted yet is no error.
  unfoldable pub refresh_group_key : Str → Status → Action (Party W) Bool
  refresh_group_key session_id status = λ s.
      if not (is_some s.me.group_key) || not (status.epoch == s.me.epoch)
      then not_posted (
          (do
            group_key ← fetch_group_key session_id status.epoch status.creator_id
            set (λ me. record me {
              group_key = some group_key;
              group_keys = set_epoch status.epoch group_key me.group_keys;
              epoch = status.epoch;
            }))
            s)
      else (done (is_some s.me.group_key), s)

  unfoldable pub ensure_keys : Randoms → Action (Party W) Bool
  ensure_keys rand = do
    session_id ← require_session
    status ← call (api.status session_id)
    set (cache (dtos status.members))
    me ← this
    if is_creator me.role
        then renew_group_key rand session_id status
        else refresh_group_key session_id status
