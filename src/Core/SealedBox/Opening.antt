-- ===== src/Core/SealedBox/Opening.antt =====
-- A sealed box opens for its recipient.
use randevu.Base.{some, [], ◌++◌, length, take, drop, take-append, drop-append, ◌≡◌, ◌∙◌, subst}
use randevu.Base.Options.{bind-some}
use randevu.Noble.{Noble, Bytes}
use randevu.Core.Crypto.{agreement_key_pair_from_private}
use randevu.Core.SealedBox.{
  seal_to, open_sealed, derive_seal_key, seal_nonce, wrap_group_key, unwrap_group_key,
}

-- Public keys have 32 bytes, the shared secret is the same from both sides, and a ciphertext decrypts
-- under the key, the nonce and the associated data it was made with.
pub record SealLaws (noble : Noble) : Type 0 where
  pub key_length : (sk : Bytes) → length (noble.x25519_public sk) ≡ 32
  pub agrees :
      (a b : Bytes)
      → noble.x25519_shared a (noble.x25519_public b)
        ≡ noble.x25519_shared b (noble.x25519_public a)
  pub decrypts :
      (k n aad p : Bytes) → noble.xchacha_decrypt k n aad (noble.xchacha_encrypt k n aad p) ≡ some p

take-32 :
    (noble : Noble) (sk c : Bytes)
    → SealLaws noble
    → take 32 (noble.x25519_public sk ++ c) ≡ noble.x25519_public sk
take-32 noble sk c laws =
    subst (λ n. take n (noble.x25519_public sk ++ c) ≡ noble.x25519_public sk) (laws.key_length sk)
      (take-append (noble.x25519_public sk) c)

drop-32 :
    (noble : Noble) (sk c : Bytes) → SealLaws noble → drop 32 (noble.x25519_public sk ++ c) ≡ c
drop-32 noble sk c laws =
    subst (λ n. drop n (noble.x25519_public sk ++ c) ≡ c) (laws.key_length sk)
      (drop-append (noble.x25519_public sk) c)

-- A box as it is sealed, once the shared secret is known.
abbrev box : Noble → Bytes → Bytes → Bytes → Bytes → Bytes
unfolding derive_seal_key seal_nonce
box noble e r shared plaintext =
    noble.x25519_public e
    ++ noble.xchacha_encrypt
        (derive_seal_key noble shared (noble.x25519_public e) (noble.x25519_public r))
        (seal_nonce noble (noble.x25519_public e) (noble.x25519_public r)) [] plaintext

open_sealed-box :
    (noble : Noble) (e r shared plaintext : Bytes)
    → SealLaws noble
    → noble.x25519_shared e (noble.x25519_public r) ≡ some shared
    → open_sealed noble (box noble e r shared plaintext) (agreement_key_pair_from_private noble r)
      ≡ some plaintext
unfolding open_sealed agreement_key_pair_from_private box
open_sealed-box noble e r shared plaintext laws h =
    let same_secret : noble.x25519_shared r (noble.x25519_public e) ≡ some shared =
      laws.agrees r e ∙ h in
    rw (take-32 noble e _ laws, drop-32 noble e _ laws, same_secret)
      (laws.decrypts _ _ [] plaintext)

-- What the wrapper seals to a recipient's public key, the recipient unwraps, whatever the ephemeral
-- key was: if sealing did not throw, opening gives the group key.
pub unwrap-wrap_group_key :
    (noble : Noble) (ephemeral private_key group_key sealed : Bytes)
    → SealLaws noble
    → wrap_group_key noble ephemeral group_key (noble.x25519_public private_key) ≡ some sealed
    → unwrap_group_key noble sealed (agreement_key_pair_from_private noble private_key)
      ≡ some group_key
unfolding wrap_group_key unwrap_group_key seal_to agreement_key_pair_from_private box
unwrap-wrap_group_key noble ephemeral private_key group_key sealed laws h =
    let (shared, (e, f)) =
      bind-some (noble.x25519_shared ephemeral (noble.x25519_public private_key)) _ h in
    let same : box noble ephemeral private_key shared group_key ≡ sealed = cc f in
    subst
      (λ b.
        open_sealed noble b (agreement_key_pair_from_private noble private_key) ≡ some group_key)
      same (open_sealed-box noble ephemeral private_key shared group_key laws e)
