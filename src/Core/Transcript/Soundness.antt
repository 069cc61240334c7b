-- ===== src/Core/Transcript/Soundness.antt =====
-- What the verdict of `verifyTranscript` means: a bundle is valid exactly when it proves itself.
use randevu.Base.{
  Bool, true, false, ◌&&◌, Option, none, some, List, [], Str, str_eq_iff, ◌≡◌, refl, ap, ◌∙◌, All,
  ==_iff, subst,
}
use randevu.Noble.{Noble, Bytes}
use randevu.Core.Crypto.{fingerprint, verify, verify_hex}
use randevu.Core.Message.Chain.{head_after}
use randevu.Core.Transcript.{
  TranscriptMessageEntry, TranscriptBundle, TranscriptHead, Pinned, Walk, lookup_id, hex_or_empty,
  is_cons, last_seq_from, transcript_head_canonical, signed_head, check_head, with_head, pin,
  sort_entries, check_members, verify_transcript,
}
use randevu.Core.Transcript.Members.{IsGenuine, lookup_id-IsPinning, check_members-true}
use randevu.Core.Transcript.Walking.{Authentic, signings, head-walk, valid-walk}
use randevu.Core.Transcript.Agreed.{IsBacked, agreements_of-IsBacked, walk-IsIndex}

-- The signed head: its signer is pinned, the signature verifies over the session, the length and
-- the head hash, and these are those of the bundle's messages.
pub record IsHead (noble : Noble) (p : Pinned) (ordered : List TranscriptMessageEntry)
    (h : TranscriptHead) : Type 0 where
  pub signer_pub : Bytes
  pub pinned : lookup_id h.signer p.ids ≡ some signer_pub
  pub signature : Bytes
  pub signature_hex : noble.hex_to_bytes h.signature ≡ some signature
  pub signed :
      verify noble signature
        (noble.utf8_to_bytes (transcript_head_canonical p.session_id h.last_seq h.head_hash))
        signer_pub
      ≡ true
  pub head_hash :
      h.head_hash ≡ hex_or_empty noble (head_after noble none (signings noble p ordered))
  pub last_seq : h.last_seq ≡ last_seq_from 0 ordered

-- A bundle that proves itself.
pub record IsProven (noble : Noble) (bundle : TranscriptBundle) : Type 0 where
  pub some_member : is_cons bundle.members ≡ true
  pub members : All (IsGenuine noble) bundle.members
  pub senders :
      (f : Str) (k : Bytes) → lookup_id f (pin noble bundle).ids ≡ some k → fingerprint noble k ≡ f
  pub messages : Authentic noble (pin noble bundle) none (sort_entries bundle.messages)
  pub head :
      (h : TranscriptHead)
      → bundle.head ≡ some h
      → IsHead noble (pin noble bundle) (sort_entries bundle.messages) h

three : (a b c : Bool) → (a && b && c) ≡ true → (a ≡ true) × ((b ≡ true) × (c ≡ true))
three false b c h = cc
three true false c h = cc
three true true c h = (refl, (refl, h))

verify_hex-cases :
    (noble : Noble) (s : Option Bytes) (message k : Bytes)
    → verify_hex noble s message k ≡ true
    → (b : Bytes) × ((s ≡ some b) × (verify noble b message k ≡ true))
verify_hex-cases noble none message k e = cc
verify_hex-cases noble (some b) message k e = (b, (refl, e))

signed_head-cases :
    (noble : Noble) (id : Str) (h : TranscriptHead) (o : Option Bytes)
    → signed_head noble id h o ≡ true
    → (k : Bytes) × ((o ≡ some k)
        × ((b : Bytes) × ((noble.hex_to_bytes h.signature ≡ some b)
              × (verify noble b
                    (noble.utf8_to_bytes (transcript_head_canonical id h.last_seq h.head_hash))
                    k
                  ≡ true))))
signed_head-cases noble id h none t = cc
signed_head-cases noble id h (some k) t = (k, (refl, verify_hex-cases noble _ _ k t))

with_head-some : (b v : Bool) → with_head (some b) v ≡ true → (v ≡ true) × (b ≡ true)
with_head-some true v e = (e, refl)
with_head-some false v e = cc

-- The verdict with a head: the loop's, and a head that holds.
with_head-true :
    (noble : Noble) (p : Pinned) (ordered : List TranscriptMessageEntry) (head : Option Bytes)
    (o : Option TranscriptHead) (v : Bool)
    → head ≡ head_after noble none (signings noble p ordered)
    → with_head (check_head noble p head (last_seq_from 0 ordered) o) v ≡ true
    → (v ≡ true) × ((h : TranscriptHead) → o ≡ some h → IsHead noble p ordered h)
unfolding check_head
with_head-true noble p ordered head none v folded e = (e, λ h d. cc d)
with_head-true noble p ordered head (some h) v folded e =
    let (v', all) = with_head-some _ v e in
    let (signed, (hash, last)) = three _ _ _ all in
    let (k, (pinned, (b, (hex, verified)))) = signed_head-cases noble p.session_id h _ signed in
    let here : IsHead noble p ordered h = record {
      signer_pub = k;
      pinned = pinned;
      signature = b;
      signature_hex = hex;
      signed = verified;
      head_hash = (str_eq_iff _ _).0 hash ∙ ap (hex_or_empty noble) folded;
      last_seq = (==_iff _ _).0 last;
    } in
    (v', λ h' d. subst (IsHead noble p ordered) (cc d) here)

-- The start of the loop over the messages.
abbrev start : Bool → Walk
start b = record { head = none; valid = b; messages = []; by_id = [] }

-- A bundle found valid proves itself: every member is genuine, every message is signed by the member
-- it names, follows the head of those before it and decrypts, and the head is the signed one.
pub valid-IsProven :
    (noble : Noble) (bundle : TranscriptBundle)
    → (verify_transcript noble bundle).valid ≡ true
    → IsProven noble bundle
unfolding verify_transcript pin
valid-IsProven noble bundle h =
    let s : Bool × List (Str × Bytes) = (is_cons bundle.members, []) in
    let flag = (check_members noble bundle.members s).0 in
    let p = pin noble bundle in
    let ordered = sort_entries bundle.messages in
    let (v, heads) =
      with_head-true noble p ordered _ bundle.head _ (head-walk noble p ordered (start flag)) h in
    let (members_valid, messages) = valid-walk noble p ordered (start flag) v in
    let (some_member, (genuine, pinned)) =
      check_members-true noble bundle.members s members_valid in
    record {
      some_member = some_member;
      members = genuine;
      senders = λ f k. lookup_id-IsPinning noble f p.ids k (pinned tt);
      messages = messages;
      head = heads;
    }

-- Every agreement of any bundle is backed by messages that the verdict reports.
pub agreements-IsBacked :
    (noble : Noble) (bundle : TranscriptBundle)
    → All
        (IsBacked (verify_transcript noble bundle).messages)
        (verify_transcript noble bundle).agreements
unfolding verify_transcript
agreements-IsBacked noble bundle =
    agreements_of-IsBacked _ _ _
      (walk-IsIndex noble (pin noble bundle) (sort_entries bundle.messages) (start _) tt) (λ m i. i)
