-- ===== src/Local/Folding.antt =====
-- The transcript of a session as a member keeps it: `pull` and `receive`.
pub mod Delivery
pub mod Undecodable
pub mod Head
pub mod Session
use randevu.Base.{
  ℕ, zero, suc, ◌+◌, max, Bool, true, false, not, ◌&&◌, Option, none, some, List, [], ◌∷◌, ◌++◌,
  Str, text, str_eq, if◌then◌else◌, leb,
}
use randevu.Base.Options.{◌>>=◌ as ◌>>=?◌}
use randevu.Noble.{Noble, Bytes}
use randevu.Core.Message.{
  SignableEnvelope, EnvelopeContext, EncryptedMessage, verify_message, decrypt_message, message_id,
  chain_hash, message_signing_bytes,
}
use randevu.Core.Transcript.{TranscriptMessageEntry, envelope, bytes_equal_nullable, lookup_epoch}
use randevu.Relay.Store.{Store, get, put}
use randevu.Local.Action.{Attempt, Action, done, fails, Fault, foreign, then, ◌>>=◌, ◌>>◌, give}
use randevu.Local.Data.{Local, LogEntry, MemberDto, MessageDto, ReceivedMessage, Randoms}
use randevu.Local.Api.{RelayApi, Party, call, this, set, require_session}
use randevu.Local.Keys.{ensure_keys}

-- A message as a transcript shows it.
unfoldable pub entry_of : MessageDto → TranscriptMessageEntry
entry_of m = record {
  seq = m.seq;
  epoch = m.epoch;
  sender_id = m.sender_id;
  type = m.type;
  nonce = m.nonce;
  ciphertext = m.ciphertext;
  prev_hash = m.prev_hash;
  ref = m.ref;
  signature = m.signature;
}

-- `sender ? verifyMessage(env, hexToBytes(m.signature), hexToBytes(sender.identityPub)) : false`; `none`
-- is a throw
abbrev pub verify_decoded : Noble → SignableEnvelope → Option Bytes → Option Bytes → Option Bool
verify_decoded noble env none pub_key = none
verify_decoded noble env (some signature) none = none
verify_decoded noble env (some signature) (some pub_key) =
    some (verify_message noble env signature pub_key)

abbrev pub check_sender : Noble → SignableEnvelope → Str → Option MemberDto → Option Bool
check_sender noble env signature none = some false
check_sender noble env signature (some sender) =
    verify_decoded noble env (noble.hex_to_bytes signature) (noble.hex_to_bytes sender.identity_pub)

abbrev pub or_empty : Option Str → Str
or_empty none = []
or_empty (some s) = s

-- The body is read of a verified message of somebody else, with the key of the message's own epoch.
abbrev pub read_body : Noble → SignableEnvelope → Bool → Option Bytes → Str
read_body noble env false key = []
read_body noble env true none = []
read_body noble env true (some key) = or_empty (
    decrypt_message noble key env.context
      (record { nonce = env.nonce; ciphertext = env.ciphertext }))

-- One round of the loop of `pull`, once the hex fields are decoded.
unfoldable pub folded : Noble → Local → MessageDto → SignableEnvelope → Bool → Local
unfolding bytes_equal_nullable message_id lookup_epoch
folded noble me m env sig_ok =
    let chain_ok = bytes_equal_nullable env.prev_hash me.head in
    let verified = sig_ok && chain_ok in
    let body =
      read_body noble env (verified && not (str_eq m.sender_id me.member_id))
        (lookup_epoch m.epoch me.group_keys) in
    let entry : LogEntry = record {
      seq = m.seq;
      sender_id = m.sender_id;
      type = m.type;
      verified = verified;
      chain_ok = chain_ok;
      body = body;
      id = message_id noble env;
      dto = m;
    } in
    record me {
      head = some (chain_hash noble me.head (message_signing_bytes noble env));
      log = me.log ++ entry ∷ [];
      fetched_seq = max me.fetched_seq m.seq;
    }

-- The whole round: `none` where a hex field does not decode, which nothing catches.
unfoldable pub fold_message : Noble → Str → Local → MessageDto → Option Local
unfolding envelope entry_of folded
fold_message noble session_id me m = envelope noble session_id (entry_of m) >>=? λ env.
    check_sender noble env m.signature (get me.members_by_id m.sender_id) >>=? λ sig_ok.
    some (folded noble me m env sig_ok)

unfoldable pub fold_messages : Noble → Str → Local → List MessageDto → Attempt (Unit {0}) × Local
unfolding fold_message
fold_messages noble session_id me [] = (done tt, me)
fold_messages noble session_id me (m ∷ ms) = elim (fold_message noble session_id me m) [
  | none ↦ (fails foreign, me)
  | some me' ↦ fold_messages noble session_id me' ms
]

-- The loop of `receive` over the log: the last number seen, and the messages of the others.
unfoldable pub deliver : Str → ℕ → List LogEntry → List ReceivedMessage × ℕ
deliver member_id inbox [] = ([], inbox)
deliver member_id inbox (e ∷ es) =
    let skipped = deliver member_id inbox es in
    let next = deliver member_id e.seq es in
    if leb e.seq inbox then skipped else if str_eq e.sender_id member_id then next else (
      record {
        seq = e.seq;
        id = e.id;
        sender_id = e.sender_id;
        type = e.type;
        body = e.body;
        ref = e.dto.ref;
        verified = e.verified;
      }
          ∷ next.0,
      next.1,
    )

module _ {W : Type 0} (noble : Noble) (api : RelayApi W) where
  -- Messages that were folded before a throw stay folded.
  abbrev pub folding : Str → List MessageDto → Action (Party W) (Unit {0})
  unfolding fold_messages
  folding session_id ms = λ s.
      let r = fold_messages noble session_id s.me ms in (r.0, record { me = r.1; world = s.world })

  unfoldable pub pull : Action (Party W) (Unit {0})
  unfolding folding
  pull = do
    session_id ← require_session
    me ← this
    messages ← call (api.get_messages session_id me.fetched_seq)
    folding session_id messages

  unfoldable pub receive : Randoms → Action (Party W) (List ReceivedMessage)
  unfolding pull deliver
  receive rand = do
    has_key ← ensure_keys noble api rand
    pull
    me ← this
    let delivered = deliver me.member_id me.inbox_seq me.log
    set (λ me. record me { inbox_seq = delivered.1 })
    give delivered.0
