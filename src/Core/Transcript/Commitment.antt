-- ===== src/Core/Transcript/Commitment.antt =====
-- What the signed head of a transcript commits to.
use randevu.Base.{
  ℕ, true, Option, none, some, List, [], ◌∷◌, ◌≡◌, refl, sym, ap, ◌∙◌, arith, All, length, ◌*◌, ◌⊎◌,
  inl, inr, map, cons_head, cons_tail,
}
use mathlib.Core.List.{mem-cons_self, mem-cons_of_mem}
use randevu.Noble.{Noble, Bytes}
use randevu.Core.Message.{SignableEnvelope, canonical, message_signing_bytes, chain_hash}
use randevu.Core.Message.Chain.{head_after, inputs, CollisionIn, Bytes-discrete, chain-binds}
use randevu.Core.Message.Binding.{HexLaws}
use randevu.Core.Transcript.{
  TranscriptMessageEntry, TranscriptBundle, TranscriptHead, Pinned, envelope, hex_or_empty, pin,
  sort_entries, verify_transcript,
}
use randevu.Core.Transcript.Walking.{signings}
use randevu.Core.Transcript.Soundness.{valid-IsProven}

-- A hash has 32 bytes, and `bytesToHex` writes two characters for a byte.
pub record Digests (noble : Noble) : Type 0 where
  pub digest : (b : Bytes) → length (noble.sha256 b) ≡ 32
  pub width : (b : Bytes) → length (noble.bytes_to_hex b) ≡ 2 * length b

abbrev pub IsDigest : Option Bytes → Type 0
IsDigest none = Unit
IsDigest (some x) = length x ≡ 32

head_after-IsDigest :
    (noble : Noble) (ms : List Bytes) (head : Option Bytes)
    → Digests noble
    → IsDigest head
    → IsDigest (head_after noble head ms)
unfolding head_after chain_hash
head_after-IsDigest noble [] head d h = h
head_after-IsDigest noble (m ∷ ms) head d h = head_after-IsDigest noble ms _ d (d.digest _)

signings-length :
    (noble : Noble) (p : Pinned) (ms : List TranscriptMessageEntry)
    → Digests noble
    → All (λ m. length m ≡ 32) (signings noble p ms)
unfolding signings message_signing_bytes
signings-length noble p [] d = tt
signings-length noble p (m ∷ ms) d =
    at (envelope noble p.session_id m) (signings-length noble p ms d)
  where
    at :
        (o : Option SignableEnvelope)
        → All (λ m. length m ≡ 32) (signings noble p ms)
        → All
            (λ m. length m ≡ 32)
            (elim o [
              | none ↦ signings noble p ms
              | some env ↦ message_signing_bytes noble env ∷ signings noble p ms
            ])
    at none rest = rest
    at (some env) rest = (d.digest _, rest)

hex_or_empty-injective :
    (noble : Noble) (a b : Option Bytes)
    → HexLaws noble
    → Digests noble
    → IsDigest a
    → IsDigest b
    → hex_or_empty noble a ≡ hex_or_empty noble b
    → a ≡ b
hex_or_empty-injective noble none none hex d i j e = refl
hex_or_empty-injective noble none (some y) hex d i j e =
    absurd (omega (arith, d.width y, j, ap (length {A = ℕ}) e))
hex_or_empty-injective noble (some x) none hex d i j e =
    absurd (omega (arith, d.width x, i, ap (length {A = ℕ}) e))
hex_or_empty-injective noble (some x) (some y) hex d i j e = ap some (hex.injective x y e)

-- What is hashed for the signatures of the messages that decode: the encoded signing texts.
unfoldable pub signed_texts : Noble → Pinned → List TranscriptMessageEntry → List Bytes
signed_texts noble p [] = []
signed_texts noble p (m ∷ ms) = elim (envelope noble p.session_id m) [
  | none ↦ signed_texts noble p ms
  | some env ↦ noble.utf8_to_bytes (canonical noble env) ∷ signed_texts noble p ms
]

signings-signed_texts :
    (noble : Noble) (p : Pinned) (ms : List TranscriptMessageEntry)
    → signings noble p ms ≡ map noble.sha256 (signed_texts noble p ms)
unfolding signings signed_texts message_signing_bytes
signings-signed_texts noble p [] = refl
signings-signed_texts noble p (m ∷ ms) =
    elim (envelope noble p.session_id m)
      as (λ o.
        ◌≡◌ {A = List Bytes}
          (elim o [
            | none ↦ signings noble p ms
            | some env ↦ message_signing_bytes noble env ∷ signings noble p ms
          ])
          (map noble.sha256 (elim o [
            | none ↦ signed_texts noble p ms
            | some env ↦ noble.utf8_to_bytes (canonical noble env) ∷ signed_texts noble p ms
          ]))) [
            | none ↦ signings-signed_texts noble p ms
            | some env ↦
                ap (λ t. message_signing_bytes noble env ∷ t) (signings-signed_texts noble p ms)
          ]

-- Rows with the same hashes are the same, or hold two texts that collide.
hashes-bind :
    (noble : Noble) (xs ys : List Bytes)
    → map noble.sha256 xs ≡ map noble.sha256 ys
    → (xs ≡ ys) ⊎ CollisionIn noble xs ys
hashes-bind noble [] [] e = inl refl
hashes-bind noble [] (y ∷ ys) e = cc
hashes-bind noble (x ∷ xs) [] e = cc
hashes-bind noble (x ∷ xs) (y ∷ ys) e = elim (Bytes-discrete x y) [
  | no differ ↦ inr (x, y, mem-cons_self, mem-cons_self, differ, cons_head e)
  | yes p ↦ rest p (hashes-bind noble xs ys (cons_tail e))
]
  where
    rest :
        x ≡ y
        → (xs ≡ ys) ⊎ CollisionIn noble xs ys
        → (x ∷ xs ≡ y ∷ ys) ⊎ CollisionIn noble (x ∷ xs) (y ∷ ys)
    rest p (inl q) = inl (cc (p, q))
    rest p (inr (u, v, hu, hv, d, h)) = inr (u, v, mem-cons_of_mem x hu, mem-cons_of_mem y hv, d, h)

-- Two valid bundles whose signed heads hold one hash have the same encoded signing texts in the same
-- order, unless the hash collides: on two of these texts, or on two strings that the running hash is
-- made of. Hex is injective, hashes have 32 bytes, and hex has two characters for a byte.
pub head-commits :
    (noble : Noble) (a b : TranscriptBundle) (h k : TranscriptHead)
    → HexLaws noble
    → Digests noble
    → (verify_transcript noble a).valid ≡ true
    → (verify_transcript noble b).valid ≡ true
    → a.head ≡ some h
    → b.head ≡ some k
    → h.head_hash ≡ k.head_hash
    → (signed_texts noble (pin noble a) (sort_entries a.messages)
        ≡ signed_texts noble (pin noble b) (sort_entries b.messages))
      ⊎ (CollisionIn noble
            (signed_texts noble (pin noble a) (sort_entries a.messages))
            (signed_texts noble (pin noble b) (sort_entries b.messages))
          ⊎ CollisionIn noble
              (inputs noble none (signings noble (pin noble a) (sort_entries a.messages)))
              (inputs noble none (signings noble (pin noble b) (sort_entries b.messages))))
head-commits noble a b h k hex d va vb ha hb e =
    let as' = sort_entries a.messages in
    let bs = sort_entries b.messages in
    let left = (valid-IsProven noble a va).head h ha in
    let right = (valid-IsProven noble b vb).head k hb in
    texts (
      chain-binds noble (signings noble (pin noble a) as') (signings noble (pin noble b) bs)
        d.digest (signings-length noble (pin noble a) as' d)
        (signings-length noble (pin noble b) bs d)
        (hex_or_empty-injective noble _ _ hex d
          (head_after-IsDigest noble (signings noble (pin noble a) as') none d tt)
          (head_after-IsDigest noble (signings noble (pin noble b) bs) none d tt)
          (sym left.head_hash ∙ e ∙ right.head_hash)))
  where
    xs : List Bytes
    xs = signed_texts noble (pin noble a) (sort_entries a.messages)

    ys : List Bytes
    ys = signed_texts noble (pin noble b) (sort_entries b.messages)

    among :
        {C : Type 0}
        → (xs ≡ ys) ⊎ CollisionIn noble xs ys
        → (xs ≡ ys) ⊎ (CollisionIn noble xs ys ⊎ C)
    among (inl q) = inl q
    among (inr c) = inr (inl c)

    texts :
        {C : Type 0}
        → (signings noble (pin noble a) (sort_entries a.messages)
            ≡ signings noble (pin noble b) (sort_entries b.messages))
          ⊎ C
        → (xs ≡ ys) ⊎ (CollisionIn noble xs ys ⊎ C)
    texts (inl q) = among (
        hashes-bind noble xs ys (
          sym (signings-signed_texts noble (pin noble a) (sort_entries a.messages))
          ∙ q
          ∙ signings-signed_texts noble (pin noble b) (sort_entries b.messages)))
    texts (inr c) = inr (inr c)
