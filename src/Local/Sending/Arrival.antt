-- ===== src/Local/Sending/Arrival.antt =====
-- A message from one member to another.
use randevu.Base.{
  ℕ, ◌*◌, true, false, Option, none, some, [], ◌∷◌, ◌++◌, length, Str, str_eq, ◌≡◌, refl, sym, ap,
  subst, arith,
}
use randevu.Base.Unicode.{is_plain}
use randevu.Noble.{Noble, Bytes}
use randevu.Core.Crypto.{KeyPair, identity_key_pair_from_private, sign, verify}
use randevu.Core.Message.{
  SignableEnvelope, EnvelopeContext, encrypt_message, decrypt_message, sign_message, verify_message,
}
use randevu.Core.GroupKey.Agreement.{SignatureLaws}
use randevu.Core.SealedBox.Opening.{SealLaws}
use randevu.Core.Transcript.{envelope, prev_bytes, bytes_equal_nullable, lookup_epoch}
use randevu.Core.Transcript.Completeness.{nullable_refl}
use randevu.Core.Transcript.Commitment.{Digests, IsDigest}
use randevu.Relay.Store.{get}
use randevu.Relay.Session.Data.{StoredMessage}
use randevu.Local.Data.{Local, LogEntry, MemberDto}
use randevu.Local.Folding.{entry_of, check_sender, folded, fold_message}
use randevu.Local.Sending.{hex_or_null, sealed_envelope, outgoing}

-- Bytes that encode a text without unpaired surrogates and without a byte order mark at its start decode
-- to it.
pub record TextLaws (noble : Noble) : Type 0 where
  pub text : (s : Str) → is_plain s ≡ true → noble.bytes_to_utf8 (noble.utf8_to_bytes s) ≡ s

verify_message-sign_message :
    (noble : Noble) (env : SignableEnvelope) (sk : Bytes)
    → SignatureLaws noble
    → verify_message noble env (sign_message noble env sk) (noble.ed25519_public sk) ≡ true
unfolding verify_message sign_message verify sign
verify_message-sign_message noble env sk laws = rw (laws.accepted _ sk) refl

decrypt_message-encrypt_message :
    (noble : Noble) (nonce key : Bytes) (ctx : EnvelopeContext) (body : Str)
    → SealLaws noble
    → TextLaws noble
    → is_plain body ≡ true
    → decrypt_message noble key ctx (encrypt_message noble nonce key ctx body) ≡ some body
unfolding decrypt_message encrypt_message
decrypt_message-encrypt_message noble nonce key ctx body laws texts plain =
    rw (laws.decrypts key nonce _ (noble.utf8_to_bytes body), texts.text body plain) refl

prev_bytes-hex :
    (noble : Noble) (head : Option Bytes)
    → SignatureLaws noble
    → Digests noble
    → IsDigest head
    → prev_bytes noble (hex_or_null noble head) ≡ some head
prev_bytes-hex noble none laws d h = refl
prev_bytes-hex noble (some b) laws d h = decoded (noble.bytes_to_hex b) (laws.hex b) (d.width b)
  where
    decoded :
        (s : Str)
        → noble.hex_to_bytes s ≡ some b
        → length s ≡ 2 * length b
        → prev_bytes noble (some s) ≡ some (some b)
    decoded [] e l = absurd (omega (arith, h, l))
    decoded (c ∷ s) e l = rw (e, prev_bytes) refl

-- What two members share when one writes to the other: the head, the group key of the epoch, and the
-- sender's identity key, as the receiver has it cached.
pub record IsHeardBy (noble : Noble) (a b : Local) (sk key : Bytes) : Type 0 where
  pub identity : a.identity ≡ identity_key_pair_from_private noble sk
  pub head : b.head ≡ a.head
  pub digest : IsDigest a.head
  pub sender : MemberDto
  pub cached : get b.members_by_id a.member_id ≡ some sender
  pub pub_key : sender.identity_pub ≡ noble.bytes_to_hex (noble.ed25519_public sk)
  pub other : str_eq a.member_id b.member_id ≡ false
  pub shared : lookup_epoch a.epoch b.group_keys ≡ some key

-- The message as the relay stores it.
abbrev pub posted : Noble → Local → Str → Bytes → Bytes → Str → Str → Option Str → ℕ → StoredMessage
posted noble a id key nonce body type ref n = record {
  input = outgoing noble a (sealed_envelope noble a id key nonce body type ref);
  seq = n;
}

module _ (noble : Noble) (laws : SignatureLaws noble) (seals : SealLaws noble)
    (digests : Digests noble) (texts : TextLaws noble) (a b : Local) (id : Str)
    (sk key nonce : Bytes) (body type : Str) (ref : Option Str) (n : ℕ)
    (h : IsHeardBy noble a b sk key) (plain : is_plain body ≡ true) where
  envelope-posted :
      envelope noble id (entry_of (posted noble a id key nonce body type ref n))
      ≡ some (sealed_envelope noble a id key nonce body type ref)
  unfolding outgoing envelope entry_of sealed_envelope encrypt_message
  envelope-posted =
      rw (prev_bytes-hex noble a.head laws digests h.digest, laws.hex nonce, laws.hex) refl

  check_sender-posted :
      check_sender noble
        (sealed_envelope noble a id key nonce body type ref)
        (posted noble a id key nonce body type ref n).signature
        (get b.members_by_id a.member_id)
      ≡ some true
  unfolding outgoing identity_key_pair_from_private sealed_envelope
  check_sender-posted =
      let private : a.identity.private_key ≡ sk = ap (λ (p : KeyPair). p.private_key) h.identity in
      rw
        (
          h.cached,
          h.pub_key,
          private,
          laws.hex (noble.ed25519_public sk),
          laws.hex,
          verify_message-sign_message noble (sealed_envelope noble a id key nonce body type ref) sk
              laws,
        )
        refl

  -- A message that one member sends, another folds: the signature and the chain link are found good, the
  -- log grows by it, and its body is the one that was sent, if both have the same head, the receiver has
  -- the sender's key and the group key of the epoch, the body is a text without unpaired surrogates and
  -- without a byte order mark at its start, and the primitives do what they document.
  pub fold_message-posted :
      (b' : Local) × ((fold_message noble id b (posted noble a id key nonce body type ref n)
          ≡ some b')
        × ((e : LogEntry) × ((b'.log ≡ b.log ++ e ∷ [])
              × ((e.verified ≡ true) × ((e.body ≡ body) × (e.seq ≡ n))))))
  unfolding fold_message folded sealed_envelope outgoing
  fold_message-posted =
      let m = posted noble a id key nonce body type ref n in
      let env = sealed_envelope noble a id key nonce body type ref in
      let chained : bytes_equal_nullable a.head b.head ≡ true =
        subst (λ x. bytes_equal_nullable a.head x ≡ true) (sym h.head) (nullable_refl a.head) in
      let opened =
        decrypt_message-encrypt_message noble nonce key env.context body seals texts plain in
      (
        folded noble b m env true,
        (
          rw (envelope-posted, check_sender-posted) refl,
          (_, (refl, (chained, (rw (chained, h.other, h.shared, opened) refl, refl)))),
        ),
      )
