-- ===== src/Noble.antt =====
-- What the program takes from @noble/* and @scure/base, as one record of functions: hashes, hex and
-- text encodings, Ed25519, X25519, key derivation and XChaCha20-Poly1305. `none` is a thrown
-- exception. None of it is defined here; a theorem that relies on documented behaviour names it as a
-- hypothesis. A cipher without associated data is the one with empty associated data.
use randevu.Base.{ℕ, Bool, Option, List, Str}

abbrev pub Bytes : Type 0
Bytes = List ℕ

pub record Noble : Type 0 where
  pub sha256 : Bytes → Bytes
  -- blake2b(message, { dkLen })
  pub blake2b : Bytes → ℕ → Bytes
  pub bytes_to_hex : Bytes → Str
  pub hex_to_bytes : Str → Option Bytes
  pub utf8_to_bytes : Str → Bytes
  pub bytes_to_utf8 : Bytes → Str
  pub base58_encode : Bytes → Str
  pub base58_decode : Str → Option Bytes
  -- ed25519.getPublicKey(privateKey), ed25519.sign(message, privateKey)
  pub ed25519_public : Bytes → Bytes
  pub ed25519_sign : Bytes → Bytes → Bytes
  -- ed25519.verify(signature, message, publicKey)
  pub ed25519_verify : Bytes → Bytes → Bytes → Option Bool
  -- xchacha20poly1305(key, nonce, associatedData), applied to the plaintext or the ciphertext
  pub xchacha_encrypt : Bytes → Bytes → Bytes → Bytes → Bytes
  pub xchacha_decrypt : Bytes → Bytes → Bytes → Bytes → Option Bytes
  -- x25519.getPublicKey(privateKey), x25519.getSharedSecret(privateKey, publicKey)
  pub x25519_public : Bytes → Bytes
  pub x25519_shared : Bytes → Bytes → Option Bytes
  -- hkdf(sha256, inputKey, salt, info, length)
  pub hkdf_sha256 : Bytes → Bytes → Bytes → ℕ → Bytes
  -- scrypt(password, salt, { N, r, p, dkLen })
  pub scrypt : Bytes → Bytes → ℕ → ℕ → ℕ → ℕ → Bytes
