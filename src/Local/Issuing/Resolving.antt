-- ===== src/Local/Issuing/Resolving.antt =====
-- Whoever resolves the did:key of a credential's issuer verifies what the member issued.
use randevu.Base.{Option, none, some, true, Str, text, ◌≡◌}
use randevu.Core.Credential.Values.{Json, Fields, string, Texts, get_field}
use randevu.Core.Credential.{MandateKind, verify_credential, issue_credential, issue_mandate}
use randevu.Core.Crypto.{did_key_from_ed25519, ed25519_from_did_key, KeyPair}
use randevu.Local.Data.{Local}
use randevu.Local.Issuing.{did}
use randevu.Noble.{Noble, Bytes}

-- base58 decodes what it encodes.
abbrev pub Base58Decodes : Noble → Type 0
Base58Decodes noble = (b : Bytes) → noble.base58_decode (noble.base58_encode b) ≡ some b

module _ {N : Type 0} (noble : Noble) (texts : Texts N) where
  abbrev of_issuer : Option (Json N) → Option Bytes
  unfolding ed25519_from_did_key
  of_issuer (some (string did)) = ed25519_from_did_key noble did
  of_issuer _ = none

  -- The key that the issuer of a credential names.
  unfoldable pub resolved : Fields N → Option Bytes
  unfolding of_issuer get_field
  resolved vc = of_issuer (get_field (text "issuer") vc)

  -- A verifier without the member's state: it resolves the issuer, and verifies.
  abbrev pub IsSelfEvident : Fields N → Bytes → Type 0
  unfolding resolved
  IsSelfEvident vc key =
      (resolved vc ≡ some key) × (verify_credential noble texts vc key ≡ some true)

  -- The same for any pair of keys that belong together.
  abbrev IsIssuedBy : MandateKind → Fields N → Option Str → KeyPair → Type 0
  unfolding IsSelfEvident
  IsIssuedBy kind subject session_id keys =
      IsSelfEvident
        (issue_credential noble texts (did_key_from_ed25519 noble keys.public_key) keys.private_key
          subject session_id)
        keys.public_key
      × IsSelfEvident
          (issue_mandate noble texts (did_key_from_ed25519 noble keys.public_key) keys.private_key
            kind subject session_id)
          keys.public_key
