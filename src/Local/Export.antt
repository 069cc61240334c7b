-- ===== src/Local/Export.antt =====
-- What a member shows of its session: the status, the transcript and the short authentication string.
pub mod Signed
use randevu.Base.{
  ℕ, Bool, true, false, Option, none, some, List, [], ◌∷◌, map, Str, text, str_eq, if◌then◌else◌,
}
use randevu.Noble.{Noble, Bytes}
use randevu.Core.Crypto.{KeyPair, did_key_from_ed25519}
use randevu.Core.Sas.{compute_sas}
use randevu.Core.Transcript.{
  TranscriptMember, TranscriptMessageEntry, TranscriptBundle, TranscriptHead, sign_transcript_head,
  sort_entries, hex_or_empty,
}
use randevu.Relay.Store.{Store}
use randevu.Relay.Session.Data.{Status, Member}
use randevu.Local.Action.{Attempt, Action, done, fails, then, ◌>>=◌, ◌>>◌, give, or_foreign}
use randevu.Local.Data.{Local, LogEntry, MemberDto, Role, Randoms}
use randevu.Local.Api.{RelayApi, Party, call, this, set, require_session}
use randevu.Local.Keys.{ensure_keys, cache, dtos}
use randevu.Local.Folding.{pull, entry_of}

pub record LocalStatus : Type 0 where
  pub session_id : Str
  pub member_id : Str
  -- `none` is "unknown"
  pub role : Option Role
  pub locked : Bool
  pub epoch : ℕ
  pub members : List Str
  pub has_key : Bool

abbrev pub fingerprints : List MemberDto → List Str
fingerprints ms = map (λ m. m.fingerprint) ms

-- [...this.membersById.values()], as the transcript lists them; `none` is a throw
abbrev pub listed_with :
    MemberDto
    → Noble
    → Option Bytes
    → Option (List TranscriptMember)
    → Option (List TranscriptMember)
listed_with m noble (some pub_key) (some rest) = some (
    record {
      fingerprint = m.fingerprint;
      did = did_key_from_ed25519 noble pub_key;
      identity_pub = m.identity_pub;
    }
    ∷ rest)
listed_with m noble _ _ = none

unfoldable pub listed_members : Noble → Store MemberDto → Option (List TranscriptMember)
listed_members noble [] = some []
listed_members noble ((k, m) ∷ ms) =
    listed_with m noble (noble.hex_to_bytes m.identity_pub) (listed_members noble ms)

abbrev pub disclosed : Noble → List (ℕ × Bytes) → List (ℕ × Str)
disclosed noble keys = map (λ p. (p.0, noble.bytes_to_hex p.1)) keys

abbrev pub entries : List LogEntry → List TranscriptMessageEntry
unfolding entry_of
entries log = map (λ e. entry_of e.dto) log

-- The bundle, once the members are decoded. The log is sorted by number; sorting its entries of the
-- transcript is the same, since the numbers are the same.
unfoldable pub bundle_of : Noble → Str → Local → List TranscriptMember → TranscriptBundle
unfolding entries sign_transcript_head sort_entries
bundle_of noble session_id me members = record {
  session_id = session_id;
  members = members;
  group_keys = disclosed noble me.group_keys;
  messages = sort_entries (entries me.log);
  head = some (
      sign_transcript_head noble session_id me.fetched_seq (hex_or_empty noble me.head) me.member_id
        me.identity.private_key);
}

-- Our own key stands for our own entry, whatever the relay says.
abbrev pub pub_of : Noble → Local → MemberDto → Option Bytes
pub_of noble me m =
    if str_eq m.fingerprint me.member_id
    then some me.identity.public_key
    else noble.hex_to_bytes m.identity_pub

abbrev pub both : Option Bytes → Option (List Bytes) → Option (List Bytes)
both (some b) (some bs) = some (b ∷ bs)
both _ _ = none

unfoldable pub pubs_of : Noble → Local → List MemberDto → Option (List Bytes)
pubs_of noble me [] = some []
pubs_of noble me (m ∷ ms) = both (pub_of noble me m) (pubs_of noble me ms)

module _ {W : Type 0} (noble : Noble) (api : RelayApi W) where
  unfoldable pub get_status : Randoms → Action (Party W) LocalStatus
  get_status rand = do
    session_id ← require_session
    has_key ← ensure_keys noble api rand
    status ← call (api.status session_id)
    me ← this
    give (record {
      session_id = session_id;
      member_id = me.member_id;
      role = me.role;
      locked = status.locked;
      epoch = status.epoch;
      members = fingerprints (dtos status.members);
      has_key = has_key;
    })

  unfoldable pub export_transcript : Action (Party W) TranscriptBundle
  unfolding listed_members bundle_of
  export_transcript = do
    session_id ← require_session
    pull noble api
    me ← this
    members ← or_foreign (listed_members noble me.members_by_id)
    give (bundle_of noble session_id me members)

  unfoldable pub get_sas : Action (Party W) (Str × List Str)
  unfolding pubs_of compute_sas
  get_sas = do
    session_id ← require_session
    status ← call (api.status session_id)
    set (cache (dtos status.members))
    me ← this
    pubs ← or_foreign (pubs_of noble me (dtos status.members))
    give (compute_sas noble session_id pubs 6, fingerprints (dtos status.members))
