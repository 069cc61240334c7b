-- ===== src/Core/GroupKey/Agreement.antt =====
-- What the signers produce passes the verifiers, and what passes is bound to what was signed.
use randevu.Base.{
  ℕ, Bool, true, false, not, some, Str, str_eq, str_eq_iff, str_eq_refl, ◌≡◌, ◌≢◌, refl, sym, ◌∙◌,
  ◌⊎◌, inl, inr, if◌then◌else◌,
}
use randevu.Noble.{Noble, Bytes}
use randevu.Core.Crypto.{sign, verify, request_auth_bytes, sign_request, verify_request}
use randevu.Core.Message.Binding.{HexLaws}
use randevu.Core.Message.Chain.{Bytes-discrete}
use randevu.Core.GroupKey.{group_key_commitment, sign_group_key, verify_group_key}

-- Ed25519 accepts a signature of the key's owner, and hex decodes to what it encodes.
pub record SignatureLaws (noble : Noble) : Type 0 where
  pub accepted :
      (message sk : Bytes)
      → noble.ed25519_verify (noble.ed25519_sign message sk) message (noble.ed25519_public sk)
        ≡ some true
  pub hex : (b : Bytes) → noble.hex_to_bytes (noble.bytes_to_hex b) ≡ some b

-- The relay accepts a request that is signed with the private key of the identity key it checks.
pub verify_request-sign_request :
    (noble : Noble) (sk : Bytes) (canonical : Str)
    → SignatureLaws noble
    → verify_request noble (noble.ed25519_public sk) canonical (sign_request noble sk canonical)
      ≡ true
unfolding verify_request sign_request request_auth_bytes sign verify
verify_request-sign_request noble sk canonical laws = simp (laws.hex, laws.accepted)

-- A group key and its commitment pass, with the signature of the holder, under the holder's identity
-- key, the session and the epoch that were signed.
pub verify_group_key-sign_group_key :
    (noble : Noble) (id : Str) (epoch : ℕ) (group_key sk : Bytes)
    → SignatureLaws noble
    → verify_group_key noble id epoch group_key
        (sign_group_key noble id epoch group_key sk).commitment
        (sign_group_key noble id epoch group_key sk).signature
        (noble.ed25519_public sk)
      ≡ true
unfolding verify_group_key sign_group_key sign verify
verify_group_key-sign_group_key noble id epoch group_key sk laws =
    simp (str_eq_refl, laws.hex, laws.accepted)

committed :
    (noble : Noble) (id : Str) (epoch : ℕ) (group_key : Bytes) (commitment signature : Str)
    (holder : Bytes)
    → verify_group_key noble id epoch group_key commitment signature holder ≡ true
    → group_key_commitment noble group_key ≡ commitment
unfolding verify_group_key
committed noble id epoch group_key commitment signature holder h =
    (str_eq_iff _ _).0 (passed (str_eq (group_key_commitment noble group_key) commitment) _ h)
  where
    passed : (b c : Bool) → (if not b then false else c) ≡ true → b ≡ true
    passed true c e = refl
    passed false c e = cc

-- No second group key passes under one commitment, whoever presents it and whatever the session and
-- the signatures are, unless the hash collides on the two keys.
pub verify_group_key-binds :
    (noble : Noble) (i j : Str) (m n : ℕ) (a b : Bytes) (commitment s t : Str) (p q : Bytes)
    → HexLaws noble
    → verify_group_key noble i m a commitment s p ≡ true
    → verify_group_key noble j n b commitment t q ≡ true
    → (a ≡ b) ⊎ ((a ≢ b) × (noble.sha256 a ≡ noble.sha256 b))
unfolding group_key_commitment
verify_group_key-binds noble i j m n a b commitment s t p q hex u v = elim (Bytes-discrete a b) [
  | yes e ↦ inl e
  | no d ↦ inr (
    d,
    hex.injective _ _
        (committed noble i m a commitment s p u ∙ sym (committed noble j n b commitment t q v)),
  )
]
