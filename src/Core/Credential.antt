-- ===== src/Core/Credential.antt =====
-- Verifiable credentials: packages/core/src/credential.ts, and packages/local/src/settlement.ts over it.
-- What a credential holds is a JSON value; numbers are opaque.
pub mod Values
pub mod Signed
use randevu.Base.{
  Bool, true, false, not, Option, none, some, List, [], ◌∷◌, ◌++◌, Str, text, str_eq, join_by,
  split_by, if◌then◌else◌, String,
}
use randevu.Noble.{Noble, Bytes}
use randevu.Core.Crypto.{sign, verify, did_key_from_ed25519}
use Values.{
  Json, Items, Fields, null, boolean, number, string, array, object, no_items, item, no_fields,
  field, Texts, jcs, get_field, set_field, delete_field,
}

-- AP2 mandate kinds, and MANDATE_TYPE.
pub data MandateKind : Type 0 where
  intent cart payment : MandateKind

abbrev pub mandate_type : MandateKind → Str
mandate_type intent = text "IntentMandate"
mandate_type cart = text "CartMandate"
mandate_type payment = text "PaymentMandate"

module _ {N : Type 0} (noble : Noble) (texts : Texts N) where
  -- JSON.stringify({ alg: "EdDSA", kid: issuerDid })
  abbrev pub header_json : Str → Str
  header_json issuer_did =
      text "{\"alg\":\"EdDSA\",\"kid\":" ++ (texts.quote issuer_did ++ text "}")

  -- `${headerB64}.${payloadB64}`
  unfoldable pub signing_input : Fields N → Str → Str
  unfolding jcs
  signing_input credential issuer_did =
      texts.base64_encode (noble.utf8_to_bytes (header_json issuer_did))
      ++ 46 ∷ texts.base64_encode (noble.utf8_to_bytes (jcs texts (object credential)))

  unfoldable pub jws_of : Fields N → Str → Bytes → Str
  unfolding signing_input sign
  jws_of credential issuer_did private_key =
      let input = signing_input credential issuer_did in
      input ++ 46 ∷ texts.base64_encode (sign noble (noble.utf8_to_bytes input) private_key)

  -- The proof is added, or takes the place of one that is there.
  unfoldable pub sign_credential : Fields N → Str → Bytes → Fields N
  unfolding jws_of set_field
  sign_credential credential issuer_did private_key =
      set_field (text "proof")
        (object (
          field (text "type") (string (text "JsonWebSignature2020")) (
            field (text "verificationMethod") (string issuer_did) (
              field (text "proofPurpose") (string (text "assertionMethod")) (
                field (text "jws") (string (jws_of credential issuer_did private_key))
                  no_fields)))))
        credential

  -- `proof?.jws`: `none` where there is no such property
  unfoldable pub jws_field : Option (Json N) → Option (Json N)
  unfolding get_field
  jws_field (some (object fs)) = get_field (text "jws") fs
  jws_field _ = none

  -- `if (!proof?.jws) return false`, and `.split` on what is no string throws: the outer `none` is a
  -- throw, the inner one the answer false.
  abbrev pub jws_text : Option (Json N) → Option (Option Str)
  jws_text none = some none
  jws_text (some null) = some none
  jws_text (some (boolean false)) = some none
  jws_text (some (boolean true)) = none
  jws_text (some (number n)) = if texts.is_falsy n then some none else none
  jws_text (some (string [])) = some none
  jws_text (some (string (c ∷ s))) = some (some (c ∷ s))
  jws_text (some (array is)) = none
  jws_text (some (object fs)) = none

  -- The try block, with what base64 decodes to.
  abbrev pub checked_parts : Str → Str → Fields N → Bytes → Option Bytes → Option Bytes → Bool
  checked_parts h p credential public_key none signature = false
  checked_parts h p credential public_key (some payload) none = false
  checked_parts h p credential public_key (some payload) (some signature) =
      if not (str_eq (noble.bytes_to_utf8 payload) (jcs texts (object credential)))
      then false
      else verify noble signature (noble.utf8_to_bytes (h ++ 46 ∷ p)) public_key

  abbrev pub with_parts : Fields N → Bytes → List Str → Bool
  with_parts credential public_key (h ∷ p ∷ s ∷ []) =
      checked_parts h p credential public_key (texts.base64_decode p) (texts.base64_decode s)
  with_parts credential public_key _ = false

  abbrev pub with_jws : Fields N → Bytes → Option (Option Str) → Option Bool
  with_jws vc public_key none = none
  with_jws vc public_key (some none) = some false
  with_jws vc public_key (some (some jws)) =
      some (with_parts (delete_field (text "proof") vc) public_key (split_by 46 jws))

  unfoldable pub verify_credential : Fields N → Bytes → Option Bool
  unfolding jws_field jcs verify delete_field split_by get_field
  verify_credential vc issuer_public_key =
      with_jws vc issuer_public_key (jws_text (jws_field (get_field (text "proof") vc)))

  -- { ...subject, sessionId }
  abbrev pub subject_with : Fields N → Option Str → Fields N
  unfolding set_field
  subject_with subject none = set_field (text "sessionId") null subject
  subject_with subject (some id) = set_field (text "sessionId") (string id) subject

  abbrev document : Items N → Str → Str → Fields N → Option Str → Fields N
  unfolding subject_with
  document context kind did subject session_id = field (text "@context") (array context) (
      field (text "type")
        (array (item (string (text "VerifiableCredential")) (item (string kind) no_items)))
        (field (text "issuer") (string did)
          (field (text "credentialSubject") (object (subject_with subject session_id)) no_fields)))

  unfoldable pub agreement_document : Str → Fields N → Option Str → Fields N
  unfolding document
  agreement_document did subject session_id =
      document (item (string (text "https://www.w3.org/2018/credentials/v1")) no_items)
        (text "RandevuAgreement") did subject session_id

  unfoldable pub mandate_document : Str → MandateKind → Fields N → Option Str → Fields N
  unfolding document
  mandate_document did kind subject session_id =
      document
        (item (string (text "https://www.w3.org/2018/credentials/v1"))
          (item (string (text "https://ap2-protocol.org/context/v1")) no_items))
        (mandate_type kind) did subject session_id

  unfoldable pub issue_credential : Str → Bytes → Fields N → Option Str → Fields N
  unfolding sign_credential agreement_document
  issue_credential did private_key subject session_id =
      sign_credential (agreement_document did subject session_id) did private_key

  unfoldable pub issue_mandate : Str → Bytes → MandateKind → Fields N → Option Str → Fields N
  unfolding sign_credential mandate_document
  issue_mandate did private_key kind subject session_id =
      sign_credential (mandate_document did kind subject session_id) did private_key
