-- ===== src/Examples/Papers.antt =====
-- A credential, a mandate and a key file, with the toy functions.
use randevu.Base.{
  true, false, Option, none, some, [], ◌∷◌, ◌++◌, Str, text, take, drop, length, take-append,
  drop-append, ap₂, ◌≡◌, refl,
}
use randevu.Core.Credential.{issue_credential}
use randevu.Core.Credential.Values.{Fields, boolean, string, no_fields, field, Texts}
use randevu.Local.Action.{done}
use randevu.Local.Keystore.{
  KeyJson, keys_of, encode_keystore, recognized, decode_keystore, decode_keystore-encode_keystore,
}
use randevu.Examples.Toy.{toy, toy-SignatureLaws, toy-SealLaws}

abbrev papers : Texts (Unit {0})
papers = record {
  quote = λ s. s;
  of_number = λ n. text "1";
  is_falsy = λ n. false;
  base64_encode = toy.bytes_to_hex;
  base64_decode = toy.hex_to_bytes;
}

abbrev deal : Fields (Unit {0})
deal = field (text "price") (string (text "10")) (field (text "agreed") (boolean true) no_fields)

abbrev issued : Fields (Unit {0})
unfolding issue_credential
issued = issue_credential toy papers (text "did:key:z1") (1 ∷ []) deal (some (text "s"))

-- A pair of texts, with the length of the first in front.
abbrev halves : Str → Option (Str × Str)
halves [] = none
halves (n ∷ s) = some (take n s, drop n s)

abbrev key_json : KeyJson
key_json = record { stringify = λ a b. length a ∷ (a ++ b); parse = halves }

parses : (a b : Str) → key_json.parse (key_json.stringify a b) ≡ some (a, b)
parses a b = ap₂ (λ u v. some (u, v)) (take-append a b) (drop-append a b)

decode_keystore-encode_keystore_example :
    decode_keystore toy key_json
      (encode_keystore toy key_json (4 ∷ []) (5 ∷ []) (keys_of toy (1 ∷ []) (2 ∷ [])) (text "pass"))
      (text "pass")
    ≡ done (keys_of toy (1 ∷ []) (2 ∷ []))
unfolding recognized encode_keystore keys_of
decode_keystore-encode_keystore_example =
    decode_keystore-encode_keystore toy key_json (4 ∷ []) (5 ∷ []) (1 ∷ []) (2 ∷ []) (text "pass")
      toy-SignatureLaws toy-SealLaws (λ a b. refl) parses refl
