-- ===== src/Examples/Proofs.antt =====
-- A bundle of one signed message, and messages, with the toy functions.
use randevu.Base.{
  str_eq, join_by, decimal, Free-by_check, true, none, some, [], ◌∷◌, ◌++◌, Str, text, ◌≡◌, ◌↔◌,
  ◌⊎◌, refl, All,
}
use randevu.Noble.{Bytes}
use randevu.Core.Crypto.{verify, fingerprint, did_key_from_ed25519}
use randevu.Core.Message.{
  verify_message, decrypt_message, SignableEnvelope, message_signing_bytes, chain_hash, canonical,
  bar,
}
use randevu.Core.Message.Chain.{head_after, inputs, CollisionIn, chain-binds}
use randevu.Core.Message.Binding.{
  IsUnambiguous, SameContent, canonical-injective, canonical_ambiguous, moved,
}
use randevu.Core.Transcript.{
  TranscriptMessageEntry, TranscriptBundle, TranscriptMember, TranscriptHead, sign_transcript_head,
  verify_transcript, pin, sort_entries,
}
use randevu.Core.Transcript.Walking.{signings}
use randevu.Core.Transcript.Soundness.{IsProven, agreements-IsBacked}
use randevu.Core.Transcript.Agreed.{IsBacked}
use randevu.Core.Transcript.Completeness.{valid_iff}
use randevu.Core.Transcript.Commitment.{signed_texts, head-commits}
use randevu.Examples.Toy.{toy, toy-HexLaws, toy-Digests}

abbrev ana_key : Bytes
ana_key = 1 ∷ []

abbrev ana_id : Str
ana_id = 1001 ∷ 48 ∷ []

abbrev ana : TranscriptMember
ana = record {
  fingerprint = ana_id;
  did = text "did:key:z" ++ 0xed ∷ 0x01 ∷ 1 ∷ [];
  identity_pub = 1001 ∷ 48 ∷ [];
}

abbrev env : SignableEnvelope
env = record {
  context = record { session_id = text "s"; epoch = 1; sender_id = ana_id };
  type = text "offer";
  prev_hash = none;
  ref = none;
  nonce = 7 ∷ [];
  ciphertext = 8 ∷ [];
}

abbrev entry : TranscriptMessageEntry
entry = record {
  seq = 1;
  epoch = 1;
  sender_id = ana_id;
  type = text "offer";
  nonce = 1007 ∷ 48 ∷ [];
  ciphertext = 1008 ∷ 48 ∷ [];
  prev_hash = none;
  ref = none;
  signature = 1001 ∷ 48 ∷ [];
}

abbrev signed : TranscriptHead
unfolding sign_transcript_head message_signing_bytes chain_hash
signed =
    sign_transcript_head toy (text "s") 1
      (toy.bytes_to_hex (chain_hash toy none (message_signing_bytes toy env))) ana_id ana_key

abbrev bundle : TranscriptBundle
unfolding signed
bundle = record {
  session_id = text "s";
  members = ana ∷ [];
  group_keys = (1, 1005 ∷ 48 ∷ []) ∷ [];
  messages = entry ∷ [];
  head = some signed;
}

bundle_valid : (verify_transcript toy bundle).valid ≡ true
unfolding verify_transcript bundle str_eq verify join_by decimal verify_message decrypt_message
    fingerprint did_key_from_ed25519
bundle_valid = refl

valid_iff_example : ((verify_transcript toy bundle).valid ≡ true) ↔ IsProven toy bundle
valid_iff_example = valid_iff toy bundle

head-commits_example :
    (signed_texts toy (pin toy bundle) (sort_entries bundle.messages)
      ≡ signed_texts toy (pin toy bundle) (sort_entries bundle.messages))
    ⊎ (CollisionIn toy
          (signed_texts toy (pin toy bundle) (sort_entries bundle.messages))
          (signed_texts toy (pin toy bundle) (sort_entries bundle.messages))
        ⊎ CollisionIn toy
            (inputs toy none (signings toy (pin toy bundle) (sort_entries bundle.messages)))
            (inputs toy none (signings toy (pin toy bundle) (sort_entries bundle.messages))))
unfolding bundle
head-commits_example =
    head-commits toy bundle bundle signed signed toy-HexLaws toy-Digests bundle_valid bundle_valid
      refl refl refl

agreements-IsBacked_example :
    All (IsBacked (verify_transcript toy bundle).messages) (verify_transcript toy bundle).agreements
agreements-IsBacked_example = agreements-IsBacked toy bundle

-- Two messages that the toy hash does not tell apart.
abbrev first_hash : Bytes
first_hash = toy.sha256 (1 ∷ 2 ∷ [])

abbrev second_hash : Bytes
second_hash = toy.sha256 (1 ∷ 1 ∷ 0 ∷ [])

chain-binds_example :
    (first_hash ∷ [] ≡ second_hash ∷ [])
    ⊎ CollisionIn toy (inputs toy none (first_hash ∷ [])) (inputs toy none (second_hash ∷ []))
unfolding head_after chain_hash
chain-binds_example =
    chain-binds toy (first_hash ∷ []) (second_hash ∷ []) (toy-Digests.digest) (refl, tt) (refl, tt)
      refl

env-IsUnambiguous : IsUnambiguous env
env-IsUnambiguous = record {
  session_id = Free-by_check bar env.session_id refl;
  sender_id = Free-by_check bar env.sender_id refl;
  type = Free-by_check bar env.type refl;
  ref = tt;
}

canonical-injective_example : SameContent toy env env
canonical-injective_example =
    canonical-injective toy env env toy-HexLaws env-IsUnambiguous env-IsUnambiguous refl

canonical_ambiguous_example :
    canonical toy (moved env (text "offer" ++ bar ∷ text "x") (text "y"))
    ≡ canonical toy (moved env (text "offer") (text "x" ++ bar ∷ text "y"))
canonical_ambiguous_example = canonical_ambiguous toy env (text "offer") (text "x") (text "y")
