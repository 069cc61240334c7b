-- ===== src/Local/Sending.antt =====
-- Sending: `send`, and `offer`, `counter`, `accept` and `reject` over it.
pub mod Arrival
use randevu.Base.{
  ℕ, Bool, true, false, not, Option, none, some, List, [], ◌∷◌, Str, text, if◌then◌else◌,
}
use randevu.Noble.{Noble, Bytes}
use randevu.Core.Crypto.{KeyPair}
use randevu.Core.Message.{
  SignableEnvelope, EnvelopeContext, EncryptedMessage, encrypt_message, sign_message,
}
use randevu.Relay.Session.Data.{MessageInput}
use randevu.Local.Action.{
  Attempt, Action, done, fails, Fault, error, then, ◌>>=◌, ◌>>◌, give, throw,
}
use randevu.Local.Data.{Local, Randoms}
use randevu.Local.Api.{RelayApi, Party, call, this, set, require_session}
use randevu.Local.Keys.{ensure_keys, of_found}
use randevu.Local.Folding.{pull}

-- this.head ? bytesToHex(this.head) : null
abbrev pub hex_or_null : Noble → Option Bytes → Option Str
hex_or_null noble none = none
hex_or_null noble (some b) = some (noble.bytes_to_hex b)

-- The envelope that is signed.
unfoldable pub sealed_envelope :
    Noble → Local → Str → Bytes → Bytes → Str → Str → Option Str → SignableEnvelope
sealed_envelope noble me session_id group_key nonce body type ref =
    let ctx : EnvelopeContext = record {
      session_id = session_id;
      epoch = me.epoch;
      sender_id = me.member_id;
    } in
    let enc = encrypt_message noble nonce group_key ctx body in
    record {
      context = ctx;
      type = type;
      prev_hash = me.head;
      ref = ref;
      nonce = enc.nonce;
      ciphertext = enc.ciphertext;
    }

-- What is posted for it.
unfoldable pub outgoing : Noble → Local → SignableEnvelope → MessageInput
outgoing noble me env = record {
  epoch = me.epoch;
  sender_id = me.member_id;
  ciphertext = noble.bytes_to_hex env.ciphertext;
  nonce = noble.bytes_to_hex env.nonce;
  signature = noble.bytes_to_hex (sign_message noble env me.identity.private_key);
  type = env.type;
  prev_hash = hex_or_null noble me.head;
  ref = env.ref;
}

module _ {W : Type 0} (noble : Noble) (api : RelayApi W) where
  unfoldable pub send : Randoms → Str → Str → Option Str → Action (Party W) ℕ
  unfolding sealed_envelope outgoing
  send rand body type ref = do
    session_id ← require_session
    has_key ← ensure_keys noble api rand
    early ← this
    group_key ←
        of_found (text "group key not ready — the other party may not have joined yet")
          early.group_key
    pull noble api
    me ← this
    call (
        api.post_message session_id (
          outgoing noble me
            (sealed_envelope noble me session_id group_key rand.nonce body type ref)))

  unfoldable pub offer : Randoms → Str → Action (Party W) ℕ
  unfolding send
  offer rand body = send rand body (text "offer") none

  unfoldable pub counter : Randoms → Str → Option Str → Action (Party W) ℕ
  unfolding send
  counter rand body ref = send rand body (text "counter") ref

  unfoldable pub accept : Randoms → Str → Str → Action (Party W) ℕ
  unfolding send
  accept rand ref note = send rand note (text "accept") (some ref)

  unfoldable pub reject : Randoms → Str → Str → Action (Party W) ℕ
  unfolding send
  reject rand ref note = send rand note (text "reject") (some ref)
