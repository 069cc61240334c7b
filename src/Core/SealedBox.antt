-- ===== src/Core/SealedBox.antt =====
-- Sealed boxes: packages/core/src/sealedbox.ts, and the wrapping of group keys with them in
-- packages/core/src/groupkey.ts. The random ephemeral private key is an argument; `none` is a throw.
pub mod Opening
use randevu.Base.{ℕ, Option, none, some, List, [], ◌++◌, Str, text, take, drop}
use randevu.Base.Options.{◌>>=◌}
use randevu.Noble.{Noble, Bytes}
use randevu.Core.Crypto.{KeyPair, agreement_key_pair_from_private}

abbrev pub seal_info : Noble → Bytes
seal_info noble = noble.utf8_to_bytes (text "randevu/sealedbox/v1")

unfoldable pub derive_seal_key : Noble → Bytes → Bytes → Bytes → Bytes
derive_seal_key noble shared ephemeral_pub recipient_pub =
    noble.hkdf_sha256 shared (ephemeral_pub ++ recipient_pub) (seal_info noble) 32

unfoldable pub seal_nonce : Noble → Bytes → Bytes → Bytes
seal_nonce noble ephemeral_pub recipient_pub = noble.blake2b (ephemeral_pub ++ recipient_pub) 24

unfoldable pub seal_to : Noble → Bytes → Bytes → Bytes → Option Bytes
unfolding derive_seal_key seal_nonce agreement_key_pair_from_private
seal_to noble ephemeral_private recipient_public_key plaintext = do
  let ephemeral = agreement_key_pair_from_private noble ephemeral_private
  shared ← noble.x25519_shared ephemeral.private_key recipient_public_key
  let key = derive_seal_key noble shared ephemeral.public_key recipient_public_key
  let nonce = seal_nonce noble ephemeral.public_key recipient_public_key
  some (ephemeral.public_key ++ noble.xchacha_encrypt key nonce [] plaintext)

unfoldable pub open_sealed : Noble → Bytes → KeyPair → Option Bytes
unfolding derive_seal_key seal_nonce
open_sealed noble sealed recipient = do
  let ephemeral_pub = take 32 sealed
  let ciphertext = drop 32 sealed
  shared ← noble.x25519_shared recipient.private_key ephemeral_pub
  let key = derive_seal_key noble shared ephemeral_pub recipient.public_key
  let nonce = seal_nonce noble ephemeral_pub recipient.public_key
  noble.xchacha_decrypt key nonce [] ciphertext

unfoldable pub wrap_group_key : Noble → Bytes → Bytes → Bytes → Option Bytes
unfolding seal_to
wrap_group_key noble ephemeral_private group_key recipient_public_key =
    seal_to noble ephemeral_private recipient_public_key group_key

unfoldable pub unwrap_group_key : Noble → Bytes → KeyPair → Option Bytes
unfolding open_sealed
unwrap_group_key noble wrapped recipient = open_sealed noble wrapped recipient
