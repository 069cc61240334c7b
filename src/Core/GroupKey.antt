-- ===== src/Core/GroupKey.antt =====
-- Group keys and their signed commitments: packages/core/src/groupkey.ts. Generation, sealing and
-- opening are calls of the third-party primitives and stay outside.
use randevu.Base.{
  ℕ, Bool, true, false, not, Option, none, some, Str, text, ◌++◌, decimal, str_eq, if◌then◌else◌,
}
use randevu.Noble.{Noble, Bytes}
use randevu.Core.Crypto.{sign, verify_hex}
pub mod Agreement

unfoldable pub group_key_commitment : Noble → Bytes → Str
group_key_commitment noble group_key = noble.bytes_to_hex (noble.sha256 group_key)

unfoldable pub group_key_dist_bytes : Noble → Str → ℕ → Str → Bytes
group_key_dist_bytes noble session_id epoch commitment = noble.sha256 (
    noble.utf8_to_bytes (
      text "randevu/groupkey/v1|"
      ++ (session_id ++ (text "|" ++ (decimal epoch ++ (text "|" ++ commitment))))))

-- { commitment, signature }
pub record SignedCommitment : Type 0 where
  pub commitment : Str
  pub signature : Str

unfoldable pub sign_group_key : Noble → Str → ℕ → Bytes → Bytes → SignedCommitment
unfolding group_key_commitment group_key_dist_bytes sign
sign_group_key noble session_id epoch group_key identity_private_key =
    let commitment = group_key_commitment noble group_key in
    record {
      commitment = commitment;
      signature = noble.bytes_to_hex (
          sign noble (group_key_dist_bytes noble session_id epoch commitment) identity_private_key);
    }

unfoldable pub verify_group_key : Noble → Str → ℕ → Bytes → Str → Str → Bytes → Bool
unfolding group_key_commitment group_key_dist_bytes
verify_group_key noble session_id epoch group_key commitment signature_hex holder_identity_pub =
    if not (str_eq (group_key_commitment noble group_key) commitment)
    then false
    else verify_hex noble (noble.hex_to_bytes signature_hex)
        (group_key_dist_bytes noble session_id epoch commitment) holder_identity_pub
