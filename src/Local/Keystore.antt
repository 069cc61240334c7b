-- ===== src/Local/Keystore.antt =====
-- The encrypted key file: packages/local/src/keystore.ts. The random salt and nonce and what JSON makes
-- of the two private keys are arguments; reading and writing the file is I/O.
use randevu.Base.{
  ℕ, ◌^◌, Bool, true, false, not, ◌&&◌, Option, none, some, [], ◌∷◌, Str, text, ◌==◌, ◌≡◌, refl, ap,
  if◌then◌else◌,
}
use randevu.Base.Options.{◌>>=◌}
use randevu.Noble.{Noble, Bytes}
use randevu.Core.Crypto.{KeyPair, identity_key_pair_from_private, agreement_key_pair_from_private}
use randevu.Core.GroupKey.Agreement.{SignatureLaws}
use randevu.Core.SealedBox.Opening.{SealLaws}
use randevu.Local.Action.{Attempt, done, fails, error, foreign}

pub record RandevuKeys : Type 0 where
  pub identity : KeyPair
  pub agreement : KeyPair

pub record KeystoreFile : Type 0 where
  pub v : ℕ
  pub salt : Str
  pub nonce : Str
  pub ciphertext : Str

-- JSON.stringify({ identity, agreement }), and those two fields of JSON.parse; `none` is a throw
pub record KeyJson : Type 0 where
  pub stringify : Str → Str → Str
  pub parse : Str → Option (Str × Str)

-- scrypt(utf8ToBytes(passphrase), salt, { N: 2 ** 16, r: 8, p: 1, dkLen: 32 })
unfoldable pub derive_key : Noble → Str → Bytes → Bytes
derive_key noble passphrase salt =
    noble.scrypt (noble.utf8_to_bytes passphrase) salt (2 ^ 16) 8 1 32

unfoldable pub encode_keystore : Noble → KeyJson → Bytes → Bytes → RandevuKeys → Str → KeystoreFile
unfolding derive_key
encode_keystore noble json salt nonce keys passphrase =
    let key = derive_key noble passphrase salt in
    let payload = noble.utf8_to_bytes (
      json.stringify (noble.bytes_to_hex keys.identity.private_key)
        (noble.bytes_to_hex keys.agreement.private_key)) in
    let ciphertext = noble.xchacha_encrypt key nonce [] payload in
    record {
      v = 1;
      salt = noble.bytes_to_hex salt;
      nonce = noble.bytes_to_hex nonce;
      ciphertext = noble.bytes_to_hex ciphertext;
    }

abbrev is_text : Str → Bool
is_text [] = false
is_text (c ∷ s) = true

-- !(file?.v !== 1 || !file.salt || !file.nonce || !file.ciphertext)
unfoldable pub recognized : KeystoreFile → Bool
recognized file =
    (file.v == 1) && (is_text file.salt && (is_text file.nonce && is_text file.ciphertext))

unfoldable pub keys_of : Noble → Bytes → Bytes → RandevuKeys
unfolding identity_key_pair_from_private agreement_key_pair_from_private
keys_of noble identity agreement = record {
  identity = identity_key_pair_from_private noble identity;
  agreement = agreement_key_pair_from_private noble agreement;
}

unfoldable pub opened_keystore : Noble → KeyJson → KeystoreFile → Str → Option RandevuKeys
unfolding derive_key keys_of
opened_keystore noble json file passphrase = do
  salt ← noble.hex_to_bytes file.salt
  nonce ← noble.hex_to_bytes file.nonce
  ciphertext ← noble.hex_to_bytes file.ciphertext
  plaintext ← noble.xchacha_decrypt (derive_key noble passphrase salt) nonce [] ciphertext
  parsed ← json.parse (noble.bytes_to_utf8 plaintext)
  identity ← noble.hex_to_bytes parsed.0
  agreement ← noble.hex_to_bytes parsed.1
  some (keys_of noble identity agreement)

abbrev or_foreign_error : Option RandevuKeys → Attempt RandevuKeys
or_foreign_error none = fails foreign
or_foreign_error (some keys) = done keys

unfoldable pub decode_keystore : Noble → KeyJson → KeystoreFile → Str → Attempt RandevuKeys
unfolding opened_keystore recognized
decode_keystore noble json file passphrase =
    if not (recognized file)
    then fails (error (text "unrecognized keystore format"))
    else or_foreign_error (opened_keystore noble json file passphrase)

module _ (noble : Noble) (json : KeyJson) (salt nonce identity agreement : Bytes) (passphrase : Str)
    (laws : SignatureLaws noble) (seals : SealLaws noble)
    (texts : (a b : Bytes)
      → noble.bytes_to_utf8
          (noble.utf8_to_bytes (json.stringify (noble.bytes_to_hex a) (noble.bytes_to_hex b)))
        ≡ json.stringify (noble.bytes_to_hex a) (noble.bytes_to_hex b))
    (parses : (a b : Str) → json.parse (json.stringify a b) ≡ some (a, b)) where
  opened_keystore-encode_keystore :
      opened_keystore noble json
        (encode_keystore noble json salt nonce (keys_of noble identity agreement) passphrase)
        passphrase
      ≡ some (keys_of noble identity agreement)
  unfolding opened_keystore encode_keystore keys_of identity_key_pair_from_private
      agreement_key_pair_from_private
  opened_keystore-encode_keystore =
      let plain = json.stringify (noble.bytes_to_hex identity) (noble.bytes_to_hex agreement) in
      let key = derive_key noble passphrase salt in
      rw
        (
          laws.hex salt,
          laws.hex nonce,
          laws.hex,
          seals.decrypts key nonce [] (noble.utf8_to_bytes plain),
          texts identity agreement,
          parses (noble.bytes_to_hex identity) (noble.bytes_to_hex agreement),
          laws.hex identity,
          laws.hex agreement,
        )
        refl

  -- A file that was written is read back with the same passphrase: the key pairs of the two private keys,
  -- where the hex of salt, nonce and ciphertext is not empty, and the encoding of what JSON makes of two
  -- hex texts decodes to it.
  pub decode_keystore-encode_keystore :
      recognized
          (encode_keystore noble json salt nonce (keys_of noble identity agreement) passphrase)
        ≡ true
      → decode_keystore noble json
          (encode_keystore noble json salt nonce (keys_of noble identity agreement) passphrase)
          passphrase
        ≡ done (keys_of noble identity agreement)
  unfolding decode_keystore
  decode_keystore-encode_keystore h = rw h (ap or_foreign_error opened_keystore-encode_keystore)
