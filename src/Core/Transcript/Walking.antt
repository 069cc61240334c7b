-- ===== src/Core/Transcript/Walking.antt =====
-- The loop of `verifyTranscript` over the messages, against what an authentic message sequence is.
use randevu.Base.{
  Bool, true, false, not, ◌||◌, Option, none, some, is_some, List, [], ◌∷◌, Str, ◌≡◌, refl, sym, ap,
  subst, arith, if◌then◌else◌,
}
use randevu.Noble.{Noble, Bytes}
use randevu.Core.Message.{
  SignableEnvelope, decrypt_message, message_signing_bytes, verify_message, chain_hash,
}
use randevu.Core.Message.Chain.{head_after}
use randevu.Core.Transcript.{
  TranscriptMessageEntry, Pinned, Walk, envelope, lookup_id, lookup_epoch, bytes_equal,
  bytes_equal_nullable, checked_signature, checked_body, undecodable, decodable, walk_with, walk,
}

bytes_equal-eq : (a b : Bytes) → bytes_equal a b ≡ true → a ≡ b
unfolding bytes_equal
bytes_equal-eq [] [] h = refl
bytes_equal-eq [] (b ∷ bs) h = cc
bytes_equal-eq (a ∷ as') [] h = cc
bytes_equal-eq (a ∷ as') (b ∷ bs) h = ground (arith, bytes_equal-eq as' bs)

nullable-eq : (a b : Option Bytes) → bytes_equal_nullable a b ≡ true → a ≡ b
unfolding bytes_equal_nullable
nullable-eq none none h = refl
nullable-eq none (some b) h = cc
nullable-eq (some a) none h = cc
nullable-eq (some a) (some b) h = ap some (bytes_equal-eq a b h)

-- A message that proves itself: it decodes, its signature verifies under the key pinned for its
-- sender, it follows the head, and it decrypts under the disclosed key of its epoch.
pub record IsAuthentic (noble : Noble) (p : Pinned) (head : Option Bytes)
    (m : TranscriptMessageEntry) : Type 0 where
  pub env : SignableEnvelope
  pub decodes : envelope noble p.session_id m ≡ some env
  pub pub_key : Bytes
  pub pinned : lookup_id m.sender_id p.ids ≡ some pub_key
  pub signature : Bytes
  pub signature_hex : noble.hex_to_bytes m.signature ≡ some signature
  pub signed : verify_message noble env signature pub_key ≡ true
  pub chained : env.prev_hash ≡ head
  pub group_key : Bytes
  pub disclosed : lookup_epoch m.epoch p.keys ≡ some group_key
  pub body : Str
  pub decrypts :
      decrypt_message noble group_key env.context
        (record { nonce = env.nonce; ciphertext = env.ciphertext })
      ≡ some body

-- The signing bytes of the messages that decode.
unfoldable pub signings : Noble → Pinned → List TranscriptMessageEntry → List Bytes
signings noble p [] = []
signings noble p (m ∷ ms) = elim (envelope noble p.session_id m) [
  | none ↦ signings noble p ms
  | some env ↦ message_signing_bytes noble env ∷ signings noble p ms
]

-- Each message is authentic behind the head that the ones before it leave.
pub data Authentic (noble : Noble) (p : Pinned)
    : Option Bytes → List TranscriptMessageEntry → Type 0 where
  done : {head : Option Bytes} → Authentic noble p head []
  next :
      {head : Option Bytes} {m : TranscriptMessageEntry} {ms : List TranscriptMessageEntry}
      → (a : IsAuthentic noble p head m)
      → Authentic noble p (some (chain_hash noble head (message_signing_bytes noble a.env))) ms
      → Authentic noble p head (m ∷ ms)

-- The loop folds the signing bytes into the head.
pub head-walk :
    (noble : Noble) (p : Pinned) (ms : List TranscriptMessageEntry) (w : Walk)
    → (walk noble p w ms).head ≡ head_after noble w.head (signings noble p ms)
unfolding walk signings head_after
head-walk noble p [] w = refl
head-walk noble p (m ∷ ms) w = folded (envelope noble p.session_id m) (head-walk noble p ms)
  where
    folded :
        (o : Option SignableEnvelope)
        → ((v : Walk) → (walk noble p v ms).head ≡ head_after noble v.head (signings noble p ms))
        → (walk noble p (walk_with noble p w m o) ms).head
          ≡ head_after noble w.head (elim o [
            | none ↦ signings noble p ms
            | some env ↦ message_signing_bytes noble env ∷ signings noble p ms
          ])
    folded none ih = ih _
    folded (some env) ih = ih _

signature-cases :
    (noble : Noble) (env : SignableEnvelope) (o s : Option Bytes)
    → checked_signature noble env o s ≡ true
    → (k : Bytes) × ((o ≡ some k)
        × ((b : Bytes) × ((s ≡ some b) × (verify_message noble env b k ≡ true))))
signature-cases noble env none s h = cc
signature-cases noble env (some k) none h = cc
signature-cases noble env (some k) (some b) h = (k, (refl, (b, (refl, h))))

some-cases : (o : Option Str) → is_some o ≡ true → (b : Str) × (o ≡ some b)
some-cases none h = cc
some-cases (some b) h = (b, refl)

body-cases :
    (noble : Noble) (env : SignableEnvelope) (b : Bool) (o : Option Bytes)
    → is_some (checked_body noble env b o) ≡ true
    → (k : Bytes) × ((o ≡ some k)
        × ((t : Str) × (decrypt_message noble k env.context
                (record { nonce = env.nonce; ciphertext = env.ciphertext })
              ≡ some t)))
body-cases noble env false o h = cc
body-cases noble env true none h = cc
body-cases noble env true (some k) h = (k, (refl, some-cases _ h))

all-checks :
    (s c b v : Bool)
    → (if not s || not c || not b then false else v) ≡ true
    → (s ≡ true) × ((c ≡ true) × ((b ≡ true) × (v ≡ true)))
all-checks false c b v h = cc
all-checks true false b v h = cc
all-checks true true false v h = cc
all-checks true true true v h = (refl, (refl, (refl, h)))

-- What one round needs to leave `valid` true.
round :
    (noble : Noble) (p : Pinned) (w : Walk) (m : TranscriptMessageEntry) (env : SignableEnvelope)
    → envelope noble p.session_id m ≡ some env
    → (decodable noble p w m env).valid ≡ true
    → (w.valid ≡ true) × ((a : IsAuthentic noble p w.head m) × (a.env ≡ env))
unfolding decodable
round noble p w m env d h =
    let (s, (c, (b, v))) = all-checks _ _ _ _ h in
    let (k, (pinned, (sg, (hex, signed)))) = signature-cases noble env _ _ s in
    let (gk, (disclosed, (t, decrypts))) = body-cases noble env _ _ b in
    (
      v,
      (
        record {
          env = env;
          decodes = d;
          pub_key = k;
          pinned = pinned;
          signature = sg;
          signature_hex = hex;
          signed = signed;
          chained = nullable-eq _ _ c;
          group_key = gk;
          disclosed = disclosed;
          body = t;
          decrypts = decrypts;
        },
        refl,
      ),
    )

-- The loop that leaves `valid` true found it true and saw authentic messages only.
pub valid-walk :
    (noble : Noble) (p : Pinned) (ms : List TranscriptMessageEntry) (w : Walk)
    → (walk noble p w ms).valid ≡ true
    → (w.valid ≡ true) × Authentic noble p w.head ms
unfolding walk undecodable decodable
valid-walk noble p [] w h = (h, done)
valid-walk noble p (m ∷ ms) w h =
    let (v, rest) =
      valid-walk noble p ms (walk_with noble p w m (envelope noble p.session_id m)) h in
    seen (envelope noble p.session_id m) refl v rest
  where
    seen :
        (o : Option SignableEnvelope)
        → envelope noble p.session_id m ≡ o
        → (walk_with noble p w m o).valid ≡ true
        → Authentic noble p (walk_with noble p w m o).head ms
        → (w.valid ≡ true) × Authentic noble p w.head (m ∷ ms)
    seen none d v rest = cc
    seen (some env) d v rest =
        let (v', (a, e)) = round noble p w m env d v in
        (
          v',
          next a (
              subst
                (λ x.
                  Authentic noble p (some (chain_hash noble w.head (message_signing_bytes noble x)))
                    ms)
                (sym e) rest),
        )
