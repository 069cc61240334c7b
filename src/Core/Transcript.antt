-- ===== src/Core/Transcript.antt =====
-- Portable transcripts: packages/core/src/transcript.ts. A bundle has the shape of its interface;
-- an arbitrary JSON value in its place is outside the model.
pub mod Data
pub mod Members
pub mod Walking
pub mod Agreed
pub mod Soundness
pub mod Completeness
pub mod Commitment
pub use Data.*
use randevu.Base.{
  ℕ, Bool, true, false, not, ◌&&◌, ◌||◌, Option, none, some, is_some, List, [], ◌∷◌, ◌++◌, Str,
  text, str_eq, decimal, ltb, ◌==◌, if◌then◌else◌,
}
use randevu.Noble.{Noble, Bytes}
use randevu.Core.Crypto.{fingerprint, did_key_from_ed25519, sign, verify, verify_hex}
use randevu.Core.Message.{
  EnvelopeContext, SignableEnvelope, EncryptedMessage, decrypt_message, message_signing_bytes,
  verify_message, chain_hash,
}

unfoldable pub transcript_head_canonical : Str → ℕ → Str → Str
transcript_head_canonical session_id last_seq head_hash =
    text "randevu/transcript-head/v1|"
    ++ (session_id ++ (text "|" ++ (decimal last_seq ++ (text "|" ++ head_hash))))

unfoldable pub sign_transcript_head : Noble → Str → ℕ → Str → Str → Bytes → TranscriptHead
unfolding transcript_head_canonical sign
sign_transcript_head noble session_id last_seq head_hash signer private_key = record {
  last_seq = last_seq;
  head_hash = head_hash;
  signer = signer;
  signature = noble.bytes_to_hex (
      sign noble (noble.utf8_to_bytes (transcript_head_canonical session_id last_seq head_hash))
        private_key);
}

unfoldable pub bytes_equal : Bytes → Bytes → Bool
bytes_equal [] [] = true
bytes_equal [] (b ∷ bs) = false
bytes_equal (a ∷ as') [] = false
bytes_equal (a ∷ as') (b ∷ bs) = (a == b) && bytes_equal as' bs

unfoldable pub bytes_equal_nullable : Option Bytes → Option Bytes → Bool
unfolding bytes_equal
bytes_equal_nullable none none = true
bytes_equal_nullable none (some b) = false
bytes_equal_nullable (some a) none = false
bytes_equal_nullable (some a) (some b) = bytes_equal a b

-- `Map.get` after a row of `Map.set`, the last one first
unfoldable pub lookup_id : Str → List (Str × Bytes) → Option Bytes
lookup_id k [] = none
lookup_id k ((j, v) ∷ m) = if str_eq j k then some v else lookup_id k m

unfoldable pub lookup_epoch : ℕ → List (ℕ × Bytes) → Option Bytes
lookup_epoch k [] = none
lookup_epoch k ((j, v) ∷ m) = if j == k then some v else lookup_epoch k m

unfoldable pub lookup_message :
    Str → List (Str × VerifiedTranscriptMessage) → Option VerifiedTranscriptMessage
lookup_message k [] = none
lookup_message k ((j, v) ∷ m) = if str_eq j k then some v else lookup_message k m

-- The loop over the members: `membersValid` and the pinned keys.
abbrev pub check_member :
    Noble → TranscriptMember → Option Bytes → Bool × List (Str × Bytes) → Bool × List (Str × Bytes)
check_member noble m none (valid, ids) = (false, ids)
check_member noble m (some pub_key) (valid, ids) = (
  if not (str_eq (fingerprint noble pub_key) m.fingerprint)
        || not (str_eq (did_key_from_ed25519 noble pub_key) m.did)
      then false
      else valid,
  (m.fingerprint, pub_key) ∷ ids,
)

unfoldable pub check_members :
    Noble → List TranscriptMember → Bool × List (Str × Bytes) → Bool × List (Str × Bytes)
check_members noble [] s = s
check_members noble (m ∷ ms) s =
    check_members noble ms (check_member noble m (noble.hex_to_bytes m.identity_pub) s)

-- The loop over the disclosed keys; a corrupt one is skipped.
abbrev set_key : ℕ → Option Bytes → List (ℕ × Bytes) → List (ℕ × Bytes)
set_key epoch none keys = keys
set_key epoch (some key) keys = (epoch, key) ∷ keys

unfoldable pub key_map : Noble → List (ℕ × Str) → List (ℕ × Bytes) → List (ℕ × Bytes)
key_map noble [] keys = keys
key_map noble ((epoch, key) ∷ gs) keys =
    key_map noble gs (set_key epoch (noble.hex_to_bytes key) keys)

-- sort((a, b) => a.seq - b.seq), stable
unfoldable pub insert_entry :
    TranscriptMessageEntry → List TranscriptMessageEntry → List TranscriptMessageEntry
insert_entry m [] = m ∷ []
insert_entry m (n ∷ ns) = if ltb n.seq m.seq then n ∷ insert_entry m ns else m ∷ n ∷ ns

unfoldable pub sort_entries : List TranscriptMessageEntry → List TranscriptMessageEntry
unfolding insert_entry
sort_entries [] = []
sort_entries (m ∷ ms) = insert_entry m (sort_entries ms)

-- `m.prevHash ? hexToBytes(m.prevHash) : null`; the outer `none` is a throw
abbrev pub prev_bytes : Noble → Option Str → Option (Option Bytes)
prev_bytes noble none = some none
prev_bytes noble (some []) = some none
prev_bytes noble (some (c ∷ s)) = elim (noble.hex_to_bytes (c ∷ s)) [
  | none ↦ none
  | some b ↦ some (some b)
]

infixl 5 ◌>>=◌
abbrev ◌>>=◌ {ℓ κ} : {A : Type ℓ} {B : Type κ} → Option A → (A → Option B) → Option B
none >>= f = none
some a >>= f = f a

unfoldable pub envelope : Noble → Str → TranscriptMessageEntry → Option SignableEnvelope
envelope noble session_id m = do
  prev_hash ← prev_bytes noble m.prev_hash
  nonce ← noble.hex_to_bytes m.nonce
  ciphertext ← noble.hex_to_bytes m.ciphertext
  some (record {
    context = record { session_id = session_id; epoch = m.epoch; sender_id = m.sender_id };
    type = m.type;
    prev_hash = prev_hash;
    ref = m.ref;
    nonce = nonce;
    ciphertext = ciphertext;
  })

-- What is fixed before the loop over the messages.
pub record Pinned : Type 0 where
  pub session_id : Str
  pub ids : List (Str × Bytes)
  pub keys : List (ℕ × Bytes)

-- The variables of that loop.
pub record Walk : Type 0 where
  pub head : Option Bytes
  pub valid : Bool
  pub messages : List VerifiedTranscriptMessage
  pub by_id : List (Str × VerifiedTranscriptMessage)

-- `pub ? verifyMessage(env, hexToBytes(m.signature), pub) : false`, with throws caught
abbrev pub checked_signature : Noble → SignableEnvelope → Option Bytes → Option Bytes → Bool
checked_signature noble env none signature = false
checked_signature noble env (some pub_key) none = false
checked_signature noble env (some pub_key) (some signature) =
    verify_message noble env signature pub_key

-- The body is decrypted only behind a valid signature, with the key of the message's own epoch.
abbrev pub checked_body : Noble → SignableEnvelope → Bool → Option Bytes → Option Str
checked_body noble env false key = none
checked_body noble env true none = none
checked_body noble env true (some key) =
    decrypt_message noble key env.context
      (record { nonce = env.nonce; ciphertext = env.ciphertext })

unfoldable pub undecodable : Walk → TranscriptMessageEntry → Walk
undecodable w m = record w {
  valid = false;
  messages =
      w.messages
      ++ record {
        seq = m.seq;
        id = [];
        sender_id = m.sender_id;
        type = m.type;
        ref = m.ref;
        body = none;
        signature_valid = false;
        chain_valid = false;
      }
        ∷ [];
}

unfoldable pub decodable : Noble → Pinned → Walk → TranscriptMessageEntry → SignableEnvelope → Walk
unfolding bytes_equal_nullable lookup_id lookup_epoch
decodable noble p w m env =
    let signing_bytes = message_signing_bytes noble env in
    let id = noble.bytes_to_hex signing_bytes in
    let signature_valid =
      checked_signature noble env (lookup_id m.sender_id p.ids) (noble.hex_to_bytes m.signature) in
    let chain_valid = bytes_equal_nullable env.prev_hash w.head in
    let body = checked_body noble env signature_valid (lookup_epoch m.epoch p.keys) in
    let vm : VerifiedTranscriptMessage = record {
      seq = m.seq;
      id = id;
      sender_id = m.sender_id;
      type = m.type;
      ref = m.ref;
      body = body;
      signature_valid = signature_valid;
      chain_valid = chain_valid;
    } in
    record {
      head = some (chain_hash noble w.head signing_bytes);
      valid =
          if not signature_valid || not chain_valid || not (is_some body) then false else w.valid;
      messages = w.messages ++ vm ∷ [];
      by_id = (id, vm) ∷ w.by_id;
    }

abbrev pub walk_with :
    Noble → Pinned → Walk → TranscriptMessageEntry → Option SignableEnvelope → Walk
walk_with noble p w m none = undecodable w m
walk_with noble p w m (some env) = decodable noble p w m env

unfoldable pub walk : Noble → Pinned → Walk → List TranscriptMessageEntry → Walk
unfolding undecodable decodable envelope
walk noble p w [] = w
walk noble p w (m ∷ ms) = walk noble p (walk_with noble p w m (envelope noble p.session_id m)) ms

-- `m.type === "accept" && m.ref && m.signatureValid && m.chainValid`
abbrev pub truthy : Option Str → Bool
truthy none = false
truthy (some []) = false
truthy (some (c ∷ s)) = true

unfoldable pub accepts : VerifiedTranscriptMessage → Bool
accepts m = str_eq m.type (text "accept") && truthy m.ref && m.signature_valid && m.chain_valid

abbrev pub or_empty : Option Str → Str
or_empty none = []
or_empty (some s) = s

abbrev pub agreement_on : VerifiedTranscriptMessage → Option VerifiedTranscriptMessage → Agreement
agreement_on m none = record {
  accepter = m.sender_id;
  accepts_id = or_empty m.ref;
  accepted_sender_id = none;
  accepted_body = none;
}
agreement_on m (some accepted) = record {
  accepter = m.sender_id;
  accepts_id = or_empty m.ref;
  accepted_sender_id = some accepted.sender_id;
  accepted_body = accepted.body;
}

unfoldable pub agreements_of :
    List (Str × VerifiedTranscriptMessage) → List VerifiedTranscriptMessage → List Agreement
unfolding accepts lookup_message
agreements_of by_id [] = []
agreements_of by_id (m ∷ ms) =
    let rest = agreements_of by_id ms in
    if accepts m then agreement_on m (lookup_message (or_empty m.ref) by_id) ∷ rest else rest

abbrev pub hex_or_empty : Noble → Option Bytes → Str
hex_or_empty noble none = []
hex_or_empty noble (some b) = noble.bytes_to_hex b

-- ordered.length ? ordered[ordered.length - 1].seq : 0
unfoldable pub last_seq_from : ℕ → List TranscriptMessageEntry → ℕ
last_seq_from n [] = n
last_seq_from n (m ∷ ms) = last_seq_from m.seq ms

abbrev pub signed_head : Noble → Str → TranscriptHead → Option Bytes → Bool
signed_head noble session_id h none = false
signed_head noble session_id h (some signer_pub) =
    verify_hex noble (noble.hex_to_bytes h.signature)
      (noble.utf8_to_bytes (transcript_head_canonical session_id h.last_seq h.head_hash)) signer_pub

unfoldable pub check_head : Noble → Pinned → Option Bytes → ℕ → Option TranscriptHead → Option Bool
unfolding lookup_id
check_head noble p head last_seq none = none
check_head noble p head last_seq (some h) = some (
    signed_head noble p.session_id h (lookup_id h.signer p.ids)
    && str_eq h.head_hash (hex_or_empty noble head)
    && (h.last_seq == last_seq))

-- if (!headValid) valid = false
abbrev pub with_head : Option Bool → Bool → Bool
with_head none valid = valid
with_head (some true) valid = valid
with_head (some false) valid = false

abbrev pub is_cons {ℓ} : {A : Type ℓ} → List A → Bool
is_cons [] = false
is_cons (x ∷ xs) = true

unfoldable pub pin : Noble → TranscriptBundle → Pinned
unfolding check_members key_map
pin noble bundle = record {
  session_id = bundle.session_id;
  ids = (check_members noble bundle.members (is_cons bundle.members, [])).1;
  keys = key_map noble bundle.group_keys [];
}

unfoldable pub verify_transcript : Noble → TranscriptBundle → TranscriptVerification
unfolding check_members sort_entries walk agreements_of last_seq_from check_head pin
verify_transcript noble bundle =
    let members_valid = (check_members noble bundle.members (is_cons bundle.members, [])).0 in
    let p = pin noble bundle in
    let ordered = sort_entries bundle.messages in
    let w =
      walk noble p (record { head = none; valid = members_valid; messages = []; by_id = [] })
        ordered in
    let head_valid = check_head noble p w.head (last_seq_from 0 ordered) bundle.head in
    record {
      valid = with_head head_valid w.valid;
      members_valid = members_valid;
      messages = w.messages;
      agreements = agreements_of w.by_id w.messages;
      head_valid = head_valid;
    }
