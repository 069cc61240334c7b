-- ===== src/Local/Issuing.antt =====
-- `did`, `issueCredential`, `issueMandate` and `x402PaymentRequired` of `RandevuLocal`
-- (packages/local/src/server.ts), and the descriptor of packages/local/src/settlement.ts.
pub mod Resolving
use randevu.Base.{Option, none, some, Str, text}
use randevu.Core.Credential.Values.{
  Json, Fields, number, string, array, object, no_items, item, no_fields, field, Texts,
}
use randevu.Core.Credential.{MandateKind, issue_credential, issue_mandate}
use randevu.Core.Crypto.{did_key_from_ed25519}
use randevu.Local.Data.{Local}
use randevu.Noble.{Noble}

pub record X402Input : Type 0 where
  pub amount : Str
  pub asset : Str
  pub network : Str
  pub pay_to : Str
  pub resource : Str
  pub description : Option Str

-- input.description ?? "Randevu settled agreement"
abbrev described : Option Str → Str
described none = text "Randevu settled agreement"
described (some d) = d

module _ {N : Type 0} where
  abbrev accepts_entry : X402Input → Fields N
  accepts_entry input = field (text "scheme") (string (text "exact")) (
      field (text "network") (string input.network) (
        field (text "maxAmountRequired") (string input.amount) (
          field (text "asset") (string input.asset) (
            field (text "payTo") (string input.pay_to) (
              field (text "resource") (string input.resource)
                (field (text "description") (string (described input.description)) no_fields))))))

  -- The version is the number 1 of the JSON values.
  unfoldable pub x402_payment_required : N → X402Input → Fields N
  x402_payment_required one input =
      field (text "x402Version") (number one)
        (field (text "accepts") (array (item (object (accepts_entry input)) no_items)) no_fields)

-- This member's public identity as a did:key.
unfoldable pub did : Noble → Local → Str
unfolding did_key_from_ed25519
did noble me = did_key_from_ed25519 noble me.identity.public_key

module _ {N : Type 0} (noble : Noble) (texts : Texts N) where
  unfoldable pub issue : Local → Fields N → Fields N
  unfolding did issue_credential
  issue me subject =
      issue_credential noble texts (did noble me) me.identity.private_key subject me.session_id

  unfoldable pub mandate : Local → MandateKind → Fields N → Fields N
  unfolding did issue_mandate
  mandate me kind subject =
      issue_mandate noble texts (did noble me) me.identity.private_key kind subject me.session_id
