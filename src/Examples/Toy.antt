-- ===== src/Examples/Toy.antt =====
-- Stand-ins for the third-party functions: a hash that keeps the length, a hex of two characters
-- for a byte, signatures that are the key, and a cipher that leaves the text as it is.
use randevu.Base.{
  ℕ, ◌+◌, ◌-◌, ◌*◌, some, List, [], ◌∷◌, Str, replicate, length, ◌≡◌, refl, ap, arith, Free,
}
use randevu.Noble.{Noble, Bytes}
use randevu.Core.Message.Binding.{HexLaws}
use randevu.Core.Transcript.{bytes_equal}
use randevu.Core.Transcript.Completeness.{bytes_equal_refl}
use randevu.Core.Transcript.Commitment.{Digests}
use randevu.Core.GroupKey.Agreement.{SignatureLaws}
use randevu.Core.Message.{bar}
use randevu.Core.SealedBox.Opening.{SealLaws}
use randevu.Local.Sending.Arrival.{TextLaws}

abbrev to_hex : Bytes → Str
to_hex [] = []
to_hex (b ∷ bs) = (1000 + b) ∷ 48 ∷ to_hex bs

abbrev of_hex : Str → Bytes
of_hex (c ∷ d ∷ s) = (c - 1000) ∷ of_hex s
of_hex _ = []

abbrev sum : Bytes → ℕ
sum [] = 0
sum (b ∷ bs) = b + sum bs

abbrev zeros : List ℕ
zeros = replicate 30 0

abbrev pub toy : Noble
toy = record {
  sha256 = λ b. length b ∷ sum b ∷ zeros;
  blake2b = λ b n. b;
  bytes_to_hex = to_hex;
  hex_to_bytes = λ s. some (of_hex s);
  utf8_to_bytes = λ s. s;
  bytes_to_utf8 = λ b. b;
  base58_encode = λ b. b;
  base58_decode = λ s. some s;
  ed25519_public = λ sk. sk;
  ed25519_sign = λ m sk. sk;
  ed25519_verify = λ s m k. some (bytes_equal s k);
  xchacha_encrypt = λ k n a p. p;
  xchacha_decrypt = λ k n a c. some c;
  x25519_public = λ sk. sum sk ∷ 0 ∷ zeros;
  x25519_shared = λ sk pk. some ((sum sk + sum pk) ∷ []);
  hkdf_sha256 = λ k s i n. k;
  scrypt = λ w s n r p d. w;
}

of_hex-to_hex : (b : Bytes) → of_hex (to_hex b) ≡ b
of_hex-to_hex [] = refl
of_hex-to_hex (b ∷ bs) = ground (arith, of_hex-to_hex bs)

to_hex-injective : (a b : Bytes) → to_hex a ≡ to_hex b → a ≡ b
to_hex-injective a b e = cc (of_hex-to_hex a, of_hex-to_hex b, ap of_hex e)

plain : (b : Bytes) → Free bar (to_hex b)
plain [] = tt
plain (b ∷ bs) = (ground arith, (refl, plain bs))

pub toy-HexLaws : HexLaws toy
toy-HexLaws = record { injective = to_hex-injective; plain = plain }

width : (b : Bytes) → length (to_hex b) ≡ 2 * length b
width [] = refl
width (b ∷ bs) = omega (arith, width bs)

pub toy-Digests : Digests toy
toy-Digests = record { digest = λ b. refl; width = width }

pub toy-SignatureLaws : SignatureLaws toy
toy-SignatureLaws = record {
  accepted = λ m sk. ap some (bytes_equal_refl sk);
  hex = λ b. ap some (of_hex-to_hex b);
}

pub toy-SealLaws : SealLaws toy
toy-SealLaws = record {
  key_length = λ sk. refl;
  agrees = λ a b. ap (λ n. some (n ∷ [])) (omega arith);
  decrypts = λ k n a p. refl;
}

pub toy-TextLaws : TextLaws toy
toy-TextLaws = record { text = λ s h. refl }
