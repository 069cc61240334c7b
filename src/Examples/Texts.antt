-- ===== src/Examples/Texts.antt =====
-- Invites, group keys, request signatures and short authentication strings with the toy functions.
use mathlib.Core.List.Perm
use randevu.Base.{join_by, true, [], ◌∷◌, text, ◌≡◌, ◌≢◌, ◌⊎◌, refl}
use randevu.Base.Outcome.{returns}
use randevu.Noble.{Bytes}
use randevu.Core.GroupKey.{SignedCommitment, sign_group_key, verify_group_key}
use randevu.Core.GroupKey.Agreement.{verify_group_key-binds, verify_group_key-sign_group_key}
use randevu.Core.Invite.{Invite, encode_invite}
use randevu.Core.Sas.{compute_sas}
use randevu.Core.Sas.Order.{compute_sas-perm}
use randevu.Examples.Toy.{toy, toy-HexLaws, toy-SignatureLaws}

abbrev invite : Invite
invite = record { session_id = text "s"; fingerprint = text "f"; join_token = text "t" }

encoded : encode_invite invite ≡ returns (text "randevu:s:f:t")
unfolding encode_invite join_by
encoded = refl

-- Two group keys that the toy hash does not tell apart.
abbrev key : Bytes
key = 1 ∷ 2 ∷ []

abbrev other_key : Bytes
other_key = 2 ∷ 1 ∷ []

abbrev signed : SignedCommitment
unfolding sign_group_key
signed = sign_group_key toy (text "s") 1 key (1 ∷ [])

accepted : verify_group_key toy (text "s") 1 key signed.commitment signed.signature (1 ∷ []) ≡ true
unfolding signed
accepted = verify_group_key-sign_group_key toy (text "s") 1 key (1 ∷ []) toy-SignatureLaws

other_accepted :
    verify_group_key toy (text "s") 1 other_key signed.commitment signed.signature (1 ∷ []) ≡ true
unfolding signed
other_accepted =
    verify_group_key-sign_group_key toy (text "s") 1 other_key (1 ∷ []) toy-SignatureLaws

verify_group_key-binds_example :
    (key ≡ other_key) ⊎ ((key ≢ other_key) × (toy.sha256 key ≡ toy.sha256 other_key))
verify_group_key-binds_example =
    verify_group_key-binds toy (text "s") (text "s") 1 1 key other_key signed.commitment
      signed.signature signed.signature (1 ∷ []) (1 ∷ []) toy-HexLaws accepted other_accepted

compute_sas-perm_example :
    compute_sas toy (text "s") ((1 ∷ []) ∷ (2 ∷ []) ∷ []) 6
    ≡ compute_sas toy (text "s") ((2 ∷ []) ∷ (1 ∷ []) ∷ []) 6
compute_sas-perm_example =
    compute_sas-perm toy (text "s") ((1 ∷ []) ∷ (2 ∷ []) ∷ []) ((2 ∷ []) ∷ (1 ∷ []) ∷ []) 6
      (Perm.swap (2 ∷ []) (1 ∷ []) [])
