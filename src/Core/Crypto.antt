-- ===== src/Core/Crypto.antt =====
-- Identities and signatures: packages/core/src/crypto.ts, did.ts and reqauth.ts. `none` is a throw.
use randevu.Base.{
  Bool, false, Option, none, some, [], ◌∷◌, ◌++◌, Str, text, drop, starts_with, if◌then◌else◌, ◌==◌,
  not, ◌||◌, length,
}
use randevu.Noble.{Noble, Bytes}

-- A thrown error is caught, and the answer is false.
abbrev pub or_false : Option Bool → Bool
or_false none = false
or_false (some b) = b

unfoldable pub sign : Noble → Bytes → Bytes → Bytes
sign noble message private_key = noble.ed25519_sign message private_key

unfoldable pub verify : Noble → Bytes → Bytes → Bytes → Bool
verify noble signature message public_key =
    or_false (noble.ed25519_verify signature message public_key)

unfoldable pub fingerprint : Noble → Bytes → Str
fingerprint noble identity_public_key = noble.bytes_to_hex (noble.blake2b identity_public_key 16)

abbrev pub ed25519_multicodec : Bytes
ed25519_multicodec = 0xed ∷ 0x01 ∷ []

abbrev pub did_key_prefix : Str
did_key_prefix = text "did:key:z"

unfoldable pub did_key_from_ed25519 : Noble → Bytes → Str
did_key_from_ed25519 noble public_key =
    did_key_prefix ++ noble.base58_encode (ed25519_multicodec ++ public_key)

-- `decoded[0] !== 0xed || decoded[1] !== 0x01`, and `decoded.slice(2)`
abbrev of_multicodec : Bytes → Option Bytes
of_multicodec (a ∷ b ∷ rest) = if not (a == 0xed) || not (b == 0x01) then none else some rest
of_multicodec _ = none

abbrev or_none : Option Bytes → Option Bytes
or_none none = none
or_none (some decoded) = of_multicodec decoded

unfoldable pub ed25519_from_did_key : Noble → Str → Option Bytes
ed25519_from_did_key noble did =
    if not (starts_with did did_key_prefix)
    then none
    else or_none (noble.base58_decode (drop (length did_key_prefix) did))

-- Request authentication.
unfoldable pub request_canonical : Str → Str → Str → Str
request_canonical method full_path timestamp =
    text "randevu/req/v1|" ++ (method ++ (text "|" ++ (full_path ++ (text "|" ++ timestamp))))

unfoldable pub request_auth_bytes : Noble → Str → Bytes
request_auth_bytes noble canonical = noble.sha256 (noble.utf8_to_bytes canonical)

unfoldable pub sign_request : Noble → Bytes → Str → Str
unfolding request_auth_bytes sign
sign_request noble private_key canonical =
    noble.bytes_to_hex (sign noble (request_auth_bytes noble canonical) private_key)

-- `verify(hexToBytes(signatureHex), …)` inside a try block that answers false
abbrev pub verify_hex : Noble → Option Bytes → Bytes → Bytes → Bool
verify_hex noble none message public_key = false
verify_hex noble (some signature) message public_key = verify noble signature message public_key

unfoldable pub verify_request : Noble → Bytes → Str → Str → Bool
unfolding request_auth_bytes verify
verify_request noble public_key canonical signature_hex =
    verify_hex noble (noble.hex_to_bytes signature_hex) (request_auth_bytes noble canonical)
      public_key

-- An identity key pair or an agreement key pair.
pub record KeyPair : Type 0 where
  pub private_key : Bytes
  pub public_key : Bytes

-- The random private key is an argument of the generating functions.
unfoldable pub identity_key_pair_from_private : Noble → Bytes → KeyPair
identity_key_pair_from_private noble private_key = record {
  private_key = private_key;
  public_key = noble.ed25519_public private_key;
}

unfoldable pub agreement_key_pair_from_private : Noble → Bytes → KeyPair
agreement_key_pair_from_private noble private_key = record {
  private_key = private_key;
  public_key = noble.x25519_public private_key;
}
