-- ===== src/Core/Credential/Signed.antt =====
-- What a credential's proof shows.
use randevu.Base.{
  Bool, true, false, not, Option, none, some, List, [], ◌∷◌, ◌++◌, Str, text, str_eq, str_eq_iff,
  str_eq_refl, split_by, split_by-append, split_by-Free, Free, append_assoc, ◌≡◌, refl, sym, arith,
  ap, ◌∙◌, if◌then◌else◌,
}
use randevu.Noble.{Noble, Bytes}
use randevu.Core.Crypto.{sign, verify}
use randevu.Core.GroupKey.Agreement.{SignatureLaws}
use randevu.Core.Credential.{
  header_json, signing_input, jws_of, sign_credential, jws_field, jws_text, checked_parts,
  with_parts, with_jws, verify_credential, MandateKind, agreement_document, mandate_document,
  issue_credential, issue_mandate,
}
use randevu.Core.Credential.Values.{
  Json, Fields, string, object, no_fields, field, Texts, jcs, get_field, set_field, delete_field,
}

-- base64url decodes what it encodes and holds no full stop; bytes that encode a text decode to it.
pub record EncodingLaws {N : Type 0} (noble : Noble) (texts : Texts N) : Type 0 where
  pub decodes : (b : Bytes) → texts.base64_decode (texts.base64_encode b) ≡ some b
  pub no_stop : (b : Bytes) → Free 46 (texts.base64_encode b)
  pub text : (s : Str) → noble.bytes_to_utf8 (noble.utf8_to_bytes s) ≡ s

get_field-set_field :
    {N : Type 0} (k : Str) (j : Json N) (fs : Fields N) → get_field k (set_field k j fs) ≡ some j
unfolding get_field set_field
get_field-set_field k j no_fields = rw (str_eq_refl k) refl
get_field-set_field k j (field i l fs) = ground (arith, get_field-set_field k j fs)

delete_field-set_field :
    {N : Type 0} (k : Str) (j : Json N) (fs : Fields N)
    → get_field k fs ≡ none
    → delete_field k (set_field k j fs) ≡ fs
unfolding get_field set_field delete_field
delete_field-set_field k j no_fields h = rw (str_eq_refl k) refl
delete_field-set_field k j (field i l fs) h = ground (arith, delete_field-set_field k j fs)

module _ {N : Type 0} (noble : Noble) (texts : Texts N) where
  split_by-jws :
      (credential : Fields N) (did : Str) (sk : Bytes)
      → EncodingLaws noble texts
      → split_by 46 (jws_of noble texts credential did sk)
        ≡ texts.base64_encode (noble.utf8_to_bytes (header_json noble texts did))
          ∷ texts.base64_encode (noble.utf8_to_bytes (jcs texts (object credential)))
          ∷ texts.base64_encode
              (sign noble (noble.utf8_to_bytes (signing_input noble texts credential did)) sk)
          ∷ []
  unfolding jws_of signing_input
  split_by-jws credential did sk laws =
      let h = texts.base64_encode (noble.utf8_to_bytes (header_json noble texts did)) in
      let p = texts.base64_encode (noble.utf8_to_bytes (jcs texts (object credential))) in
      let s =
        texts.base64_encode
          (sign noble (noble.utf8_to_bytes (signing_input noble texts credential did)) sk) in
      ap (split_by 46) (append_assoc h (46 ∷ p) (46 ∷ s))
      ∙ split_by-append 46 h (p ++ 46 ∷ s) (laws.no_stop _)
      ∙ ap (λ t. h ∷ t)
          (split_by-append 46 p s (laws.no_stop _)
            ∙ ap (λ t. p ∷ t) (split_by-Free 46 s (laws.no_stop _)))

  jws_text-append :
      (a b : Str) → jws_text noble texts (some (string (a ++ 46 ∷ b))) ≡ some (some (a ++ 46 ∷ b))
  jws_text-append [] b = refl
  jws_text-append (c ∷ a) b = refl

  -- The answer, and the payload that the proof holds.
  jws_text-sign_credential :
      (credential : Fields N) (did : Str) (sk : Bytes)
      → jws_text noble texts (
          jws_field noble texts
            (get_field (text "proof") (sign_credential noble texts credential did sk)))
        ≡ some (some (jws_of noble texts credential did sk))
  unfolding sign_credential jws_field get_field str_eq jws_of
  jws_text-sign_credential credential did sk =
      ap (λ o. jws_text noble texts (jws_field noble texts o))
        (get_field-set_field (text "proof") _ credential)
      ∙ jws_text-append (signing_input noble texts credential did) _

  delete_field-sign_credential :
      (credential : Fields N) (did : Str) (sk : Bytes)
      → get_field (text "proof") credential ≡ none
      → delete_field (text "proof") (sign_credential noble texts credential did sk) ≡ credential
  unfolding sign_credential
  delete_field-sign_credential credential did sk h =
      delete_field-set_field (text "proof") _ credential h

  with_parts-signed :
      (credential : Fields N) (did : Str) (sk : Bytes)
      → SignatureLaws noble
      → EncodingLaws noble texts
      → with_parts noble texts credential
          (noble.ed25519_public sk)
          (split_by 46 (jws_of noble texts credential did sk))
        ≡ true
  unfolding signing_input sign verify
  with_parts-signed credential did sk sigs laws =
      ap (with_parts noble texts credential (noble.ed25519_public sk))
        (split_by-jws credential did sk laws)
      ∙ rw
          (
            laws.decodes (noble.utf8_to_bytes (jcs texts (object credential))),
            laws.decodes,
            laws.text (jcs texts (object credential)),
            str_eq_refl (jcs texts (object credential)),
            sigs.accepted,
          )
          refl

  -- A credential that is signed verifies under the signer's public key, if it had no proof of its own.
  pub verify_credential-sign_credential :
      (credential : Fields N) (did : Str) (sk : Bytes)
      → SignatureLaws noble
      → EncodingLaws noble texts
      → get_field (text "proof") credential ≡ none
      → verify_credential noble texts
          (sign_credential noble texts credential did sk)
          (noble.ed25519_public sk)
        ≡ some true
  unfolding verify_credential
  verify_credential-sign_credential credential did sk sigs laws h =
      let vc = sign_credential noble texts credential did sk in
      ap (with_jws noble texts vc (noble.ed25519_public sk))
        (jws_text-sign_credential credential did sk)
      ∙ ap
          (λ c. some (
            with_parts noble texts c (noble.ed25519_public sk)
              (split_by 46 (jws_of noble texts credential did sk))))
          (delete_field-sign_credential credential did sk h)
      ∙ ap some (with_parts-signed credential did sk sigs laws)

  -- What a member issues, a credential of an agreement or a mandate of any kind, verifies under its
  -- identity key.
  pub verify_credential-issued :
      (did : Str) (sk : Bytes) (kind : MandateKind) (subject : Fields N) (session_id : Option Str)
      → SignatureLaws noble
      → EncodingLaws noble texts
      → (verify_credential noble texts
            (issue_credential noble texts did sk subject session_id)
            (noble.ed25519_public sk)
          ≡ some true)
        × (verify_credential noble texts
              (issue_mandate noble texts did sk kind subject session_id)
              (noble.ed25519_public sk)
            ≡ some true)
  unfolding issue_credential issue_mandate agreement_document mandate_document get_field str_eq
  verify_credential-issued did sk kind subject session_id sigs laws = (
    verify_credential-sign_credential (agreement_document noble texts did subject session_id) did sk
        sigs laws refl,
    verify_credential-sign_credential (mandate_document noble texts did kind subject session_id) did
        sk sigs laws refl,
  )

  -- The payload that a proof holds.
  decoded_with : Option Bytes → Option Str
  decoded_with none = none
  decoded_with (some b) = some (noble.bytes_to_utf8 b)

  payload_in : List Str → Option Str
  payload_in (h ∷ p ∷ s ∷ []) = decoded_with (texts.base64_decode p)
  payload_in _ = none

  payload : Option (Option Str) → Option Str
  payload (some (some jws)) = payload_in (split_by 46 jws)
  payload _ = none

  checked_parts-payload :
      (h p : Str) (credential : Fields N) (pk : Bytes) (a b : Option Bytes)
      → checked_parts noble texts h p credential pk a b ≡ true
      → decoded_with a ≡ some (jcs texts (object credential))
  unfolding decoded_with
  checked_parts-payload h p credential pk none b e = cc e
  checked_parts-payload h p credential pk (some x) none e = cc e
  checked_parts-payload h p credential pk (some x) (some y) e = ap some (
      (str_eq_iff _ _).0
        (first (str_eq (noble.bytes_to_utf8 x) (jcs texts (object credential))) _ e))
    where
      first : (b c : Bool) → (if not b then false else c) ≡ true → b ≡ true
      first true c e = refl
      first false c e = cc e

  with_parts-payload :
      (credential : Fields N) (pk : Bytes) (parts : List Str)
      → with_parts noble texts credential pk parts ≡ true
      → payload_in parts ≡ some (jcs texts (object credential))
  unfolding payload_in
  with_parts-payload credential pk [] e = cc e
  with_parts-payload credential pk (h ∷ []) e = cc e
  with_parts-payload credential pk (h ∷ p ∷ []) e = cc e
  with_parts-payload credential pk (h ∷ p ∷ s ∷ []) e =
      checked_parts-payload h p credential pk (texts.base64_decode p) (texts.base64_decode s) e
  with_parts-payload credential pk (h ∷ p ∷ s ∷ t ∷ rest) e = cc e

  some-true : {b : Bool} → some b ≡ some true → b ≡ true
  some-true e = cc e

  with_jws-payload :
      (vc : Fields N) (pk : Bytes) (o : Option (Option Str))
      → with_jws noble texts vc pk o ≡ some true
      → payload o ≡ some (jcs texts (object (delete_field (text "proof") vc)))
  unfolding payload
  with_jws-payload vc pk none e = cc e
  with_jws-payload vc pk (some none) e = cc e
  with_jws-payload vc pk (some (some jws)) e =
      with_parts-payload (delete_field (text "proof") vc) pk (split_by 46 jws) (some-true e)

  some_same : {a b : Str} → some a ≡ some b → a ≡ b
  some_same e = cc e

  -- Two credentials that verify with the same proof have the same canonical text: no content can be
  -- changed under a proof.
  pub verify_credential-binds :
      (a b : Fields N) (pk qk : Bytes)
      → verify_credential noble texts a pk ≡ some true
      → verify_credential noble texts b qk ≡ some true
      → get_field (text "proof") a ≡ get_field (text "proof") b
      → jcs texts (object (delete_field (text "proof") a))
        ≡ jcs texts (object (delete_field (text "proof") b))
  unfolding verify_credential
  verify_credential-binds a b pk qk h k e = some_same (
      sym (with_jws-payload a pk _ h)
      ∙ ap (λ o. payload (jws_text noble texts (jws_field noble texts o))) e
      ∙ with_jws-payload b qk _ k)
