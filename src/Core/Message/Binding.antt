-- ===== src/Core/Message/Binding.antt =====
-- What a signature binds: the canonical text determines the envelope, as long as no text field
-- holds the separator.
use randevu.Base.{
  Option, none, some, [], ◌∷◌, ◌++◌, Str, text, decimal, decimal-digits, decimal-injective, IsDigit,
  join_by, join_by-injective, Free, Free-by_check, append_assoc, All, ◌≡◌, refl, arith, cons_head,
  cons_tail,
}
use randevu.Noble.{Noble, Bytes}
use randevu.Core.Message.{SignableEnvelope, or_empty, hex_or_empty, bar, fields, canonical}

-- `bytesToHex` writes hexadecimal digits, and tells byte strings apart.
pub record HexLaws (noble : Noble) : Type 0 where
  pub injective : (a b : Bytes) → noble.bytes_to_hex a ≡ noble.bytes_to_hex b → a ≡ b
  pub plain : (b : Bytes) → Free bar (noble.bytes_to_hex b)

-- The text fields hold no separator.
pub record IsUnambiguous (env : SignableEnvelope) : Type 0 where
  pub session_id : Free bar env.session_id
  pub sender_id : Free bar env.sender_id
  pub type : Free bar env.type
  pub ref : Free bar (or_empty env.ref)

-- What the canonical text shows of an envelope: an absent reference reads as an empty one, and an
-- absent hash as an empty one.
pub record SameContent (noble : Noble) (a b : SignableEnvelope) : Type 0 where
  pub session_id : a.session_id ≡ b.session_id
  pub epoch : a.epoch ≡ b.epoch
  pub sender_id : a.sender_id ≡ b.sender_id
  pub type : a.type ≡ b.type
  pub ref : or_empty a.ref ≡ or_empty b.ref
  pub prev_hash : hex_or_empty noble a.prev_hash ≡ hex_or_empty noble b.prev_hash
  pub nonce : a.nonce ≡ b.nonce
  pub ciphertext : a.ciphertext ≡ b.ciphertext

digits-Free : (s : Str) → All IsDigit s → Free bar s
digits-Free [] h = tt
digits-Free (c ∷ s) h = (ground arith, digits-Free s h.1)

hex-Free : (noble : Noble) → HexLaws noble → (o : Option Bytes) → Free bar (hex_or_empty noble o)
hex-Free noble laws none = tt
hex-Free noble laws (some b) = laws.plain b

fields-Free :
    (noble : Noble) (env : SignableEnvelope)
    → HexLaws noble
    → IsUnambiguous env
    → All (Free bar) (fields noble env)
fields-Free noble env laws u = (
  u.session_id,
  (
    digits-Free (decimal env.epoch) (decimal-digits env.epoch),
    (
      u.sender_id,
      (
        u.type,
        (
          u.ref,
          (
            hex-Free noble laws env.prev_hash,
            (laws.plain env.nonce, (laws.plain env.ciphertext, tt)),
          ),
        ),
      ),
    ),
  ),
)

tag-Free : Free bar (text "randevu/msg/v1")
tag-Free = Free-by_check bar (text "randevu/msg/v1") refl

-- Two envelopes with the same canonical text have the same content, field by field, if none of
-- their text fields holds the separator.
pub canonical-injective :
    (noble : Noble) (a b : SignableEnvelope)
    → HexLaws noble
    → IsUnambiguous a
    → IsUnambiguous b
    → canonical noble a ≡ canonical noble b
    → SameContent noble a b
unfolding canonical
canonical-injective noble a b laws ua ub e =
    let f = cons_tail (
      join_by-injective bar (text "randevu/msg/v1") (text "randevu/msg/v1") (fields noble a)
        (fields noble b) tag-Free (fields-Free noble a laws ua) tag-Free
        (fields-Free noble b laws ub) e) in
    record {
      session_id = cons_head f;
      epoch = decimal-injective a.epoch b.epoch (cons_head (cons_tail f));
      sender_id = cons_head (cons_tail (cons_tail f));
      type = cons_head (cons_tail (cons_tail (cons_tail f)));
      ref = cons_head (cons_tail (cons_tail (cons_tail (cons_tail f))));
      prev_hash = cons_head (cons_tail (cons_tail (cons_tail (cons_tail (cons_tail f)))));
      nonce =
          laws.injective _ _
            (cons_head (cons_tail (cons_tail (cons_tail (cons_tail (cons_tail (cons_tail f)))))));
      ciphertext = laws.injective _ _ (
          cons_head
            (cons_tail (cons_tail (cons_tail (cons_tail (cons_tail (cons_tail (cons_tail f))))))));
    }

-- An envelope whose type ends in a separated reference reads as one that has the reference.
abbrev pub moved : SignableEnvelope → Str → Str → SignableEnvelope
moved env type ref = record env { type = type; ref = some ref }

-- Without that condition the text is ambiguous: a separator in the type can be read as the end of
-- the type, so one signature stands for two messages with different types and references.
pub canonical_ambiguous :
    (noble : Noble) (env : SignableEnvelope) (t u r : Str)
    → canonical noble (moved env (t ++ bar ∷ u) r) ≡ canonical noble (moved env t (u ++ bar ∷ r))
unfolding canonical join_by
canonical_ambiguous noble env t u r = simp append_assoc
