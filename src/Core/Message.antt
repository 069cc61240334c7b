-- ===== src/Core/Message.antt =====
-- Message envelopes: packages/core/src/message.ts.
pub mod Binding
pub mod Chain
use randevu.Base.{
  ℕ, Bool, true, false, Option, none, some, List, [], ◌∷◌, ◌++◌, Str, text, decimal, join_by,
}
use randevu.Noble.{Noble, Bytes}
use randevu.Core.Crypto.{sign, verify}

pub record EncryptedMessage : Type 0 where
  pub nonce : Bytes
  pub ciphertext : Bytes

pub record EnvelopeContext : Type 0 where
  pub session_id : Str
  pub epoch : ℕ
  pub sender_id : Str

pub record SignableEnvelope : Type 0 where
  pub context : EnvelopeContext
  pub open context use *
  pub type : Str
  pub prev_hash : Option Bytes
  pub ref : Option Str
  pub nonce : Bytes
  pub ciphertext : Bytes

unfoldable pub associated_data : Noble → EnvelopeContext → Bytes
associated_data noble ctx = noble.utf8_to_bytes (
    text "randevu/v1|"
    ++ (ctx.session_id ++ (text "|" ++ (decimal ctx.epoch ++ (text "|" ++ ctx.sender_id)))))

-- The random nonce is an argument.
unfoldable pub encrypt_message : Noble → Bytes → Bytes → EnvelopeContext → Str → EncryptedMessage
unfolding associated_data
encrypt_message noble nonce group_key ctx plaintext = record {
  nonce = nonce;
  ciphertext =
      noble.xchacha_encrypt group_key nonce (associated_data noble ctx)
        (noble.utf8_to_bytes plaintext);
}

abbrev decoded : Noble → Option Bytes → Option Str
decoded noble none = none
decoded noble (some plaintext) = some (noble.bytes_to_utf8 plaintext)

unfoldable pub decrypt_message : Noble → Bytes → EnvelopeContext → EncryptedMessage → Option Str
unfolding associated_data
decrypt_message noble group_key ctx msg =
    decoded noble
      (noble.xchacha_decrypt group_key msg.nonce (associated_data noble ctx) msg.ciphertext)

-- env.ref ?? ""
abbrev pub or_empty : Option Str → Str
or_empty none = []
or_empty (some s) = s

-- env.prevHash ? bytesToHex(env.prevHash) : ""
abbrev pub hex_or_empty : Noble → Option Bytes → Str
hex_or_empty noble none = []
hex_or_empty noble (some b) = noble.bytes_to_hex b

abbrev pub bar : ℕ
bar = 124

abbrev pub fields : Noble → SignableEnvelope → List Str
fields noble env =
    env.session_id
    ∷ decimal env.epoch
    ∷ env.sender_id
    ∷ env.type
    ∷ or_empty env.ref
    ∷ hex_or_empty noble env.prev_hash
    ∷ noble.bytes_to_hex env.nonce
    ∷ noble.bytes_to_hex env.ciphertext
    ∷ []

-- The text that is hashed and signed.
unfoldable pub canonical : Noble → SignableEnvelope → Str
canonical noble env = join_by bar (text "randevu/msg/v1" ∷ fields noble env)

unfoldable pub message_signing_bytes : Noble → SignableEnvelope → Bytes
unfolding canonical
message_signing_bytes noble env = noble.sha256 (noble.utf8_to_bytes (canonical noble env))

unfoldable pub message_id : Noble → SignableEnvelope → Str
unfolding message_signing_bytes
message_id noble env = noble.bytes_to_hex (message_signing_bytes noble env)

unfoldable pub sign_message : Noble → SignableEnvelope → Bytes → Bytes
unfolding message_signing_bytes sign
sign_message noble env private_key = sign noble (message_signing_bytes noble env) private_key

unfoldable pub verify_message : Noble → SignableEnvelope → Bytes → Bytes → Bool
unfolding message_signing_bytes verify
verify_message noble env signature public_key =
    verify noble signature (message_signing_bytes noble env) public_key

-- prevHash ?? new Uint8Array(0)
abbrev pub or_no_bytes : Option Bytes → Bytes
or_no_bytes none = []
or_no_bytes (some b) = b

unfoldable pub chain_hash : Noble → Option Bytes → Bytes → Bytes
chain_hash noble prev_hash signing_bytes = noble.sha256 (or_no_bytes prev_hash ++ signing_bytes)
