-- ===== src/Core/Transcript/Completeness.antt =====
-- The other half: `verifyTranscript` refuses no bundle that proves itself.
use randevu.Base.{
  Bool, true, false, ◌&&◌, Option, none, some, List, [], ◌∷◌, Str, str_eq_iff, ◌≡◌, refl, sym, ap,
  ◌∙◌, arith, All, ==_iff, if◌then◌else◌, is_some, not, ◌||◌, ◌↔◌, subst,
}
use randevu.Noble.{Noble, Bytes}
use randevu.Core.Message.Chain.{head_after}
use randevu.Core.Transcript.{
  TranscriptMember, TranscriptMessageEntry, TranscriptBundle, TranscriptHead, Pinned, Walk,
  lookup_id, lookup_epoch, hex_or_empty, is_cons, last_seq_from, signed_head, check_head, with_head,
  pin, sort_entries, check_member, check_members, walk, walk_with, decodable, bytes_equal,
  bytes_equal_nullable, verify_transcript, checked_signature, checked_body,
}
use randevu.Core.Transcript.Members.{IsGenuine}
use randevu.Core.Transcript.Walking.{IsAuthentic, Authentic, next, signings, head-walk}
use randevu.Core.Transcript.Soundness.{IsHead, IsProven, valid-IsProven}

pub bytes_equal_refl : (a : Bytes) → bytes_equal a a ≡ true
unfolding bytes_equal
bytes_equal_refl [] = refl
bytes_equal_refl (a ∷ as') = ground (arith, bytes_equal_refl as')

pub nullable_refl : (a : Option Bytes) → bytes_equal_nullable a a ≡ true
unfolding bytes_equal_nullable
nullable_refl none = refl
nullable_refl (some a) = bytes_equal_refl a

check_member-IsGenuine :
    (noble : Noble) (m : TranscriptMember) (s : Bool × List (Str × Bytes))
    → IsGenuine noble m
    → s.0 ≡ true
    → (check_member noble m (noble.hex_to_bytes m.identity_pub) s).0 ≡ true
check_member-IsGenuine noble m (valid, ids) g v =
    subst (λ o. (check_member noble m o (valid, ids)).0 ≡ true) (sym g.decodes)
      (kept _ _ valid ((str_eq_iff _ _).1 g.fingerprint) ((str_eq_iff _ _).1 g.did) v)
  where
    kept :
        (a b v : Bool)
        → a ≡ true
        → b ≡ true
        → v ≡ true
        → (if not a || not b then false else v) ≡ true
    kept true true v p q r = r
    kept false b v p q r = cc
    kept true false v p q r = cc

check_members-IsGenuine :
    (noble : Noble) (ms : List TranscriptMember) (s : Bool × List (Str × Bytes))
    → All (IsGenuine noble) ms
    → s.0 ≡ true
    → (check_members noble ms s).0 ≡ true
unfolding check_members
check_members-IsGenuine noble [] s g v = v
check_members-IsGenuine noble (m ∷ ms) s g v =
    check_members-IsGenuine noble ms _ g.1 (check_member-IsGenuine noble m s g.0 v)

unbroken :
    (s c b v : Bool)
    → s ≡ true
    → c ≡ true
    → b ≡ true
    → v ≡ true
    → (if not s || not c || not b then false else v) ≡ true
unbroken true true true v p q r t = t
unbroken false c b v p q r t = cc
unbroken true false b v p q r t = cc
unbroken true true false v p q r t = cc

round-valid :
    (noble : Noble) (p : Pinned) (w : Walk) (m : TranscriptMessageEntry)
    (a : IsAuthentic noble p w.head m)
    → w.valid ≡ true
    → (decodable noble p w m a.env).valid ≡ true
unfolding decodable
round-valid noble p w m a v =
    let signed : checked_signature noble a.env (lookup_id m.sender_id p.ids)
          (noble.hex_to_bytes m.signature)
        ≡ true =
      simp (a.pinned, a.signature_hex, a.signed) in
    let chained : bytes_equal_nullable a.env.prev_hash w.head ≡ true =
      subst (λ x. bytes_equal_nullable a.env.prev_hash x ≡ true) a.chained
        (nullable_refl a.env.prev_hash) in
    let read : is_some (
          checked_body noble a.env
            (checked_signature noble a.env (lookup_id m.sender_id p.ids)
              (noble.hex_to_bytes m.signature))
            (lookup_epoch m.epoch p.keys))
        ≡ true =
      simp (signed, a.disclosed, a.decrypts) in
    unbroken _ _ _ _ signed chained read v

walk-valid :
    (noble : Noble) (p : Pinned) (ms : List TranscriptMessageEntry) (w : Walk)
    → Authentic noble p w.head ms
    → w.valid ≡ true
    → (walk noble p w ms).valid ≡ true
unfolding walk
walk-valid noble p [] w a v = v
walk-valid noble p (m ∷ ms) w (next a rest) v =
    subst (λ o. (walk noble p (walk_with noble p w m o) ms).valid ≡ true) (sym a.decodes)
      (walk-valid noble p ms (decodable noble p w m a.env) rest (round-valid noble p w m a v))

head-valid :
    (noble : Noble) (p : Pinned) (ordered : List TranscriptMessageEntry) (head : Option Bytes)
    (o : Option TranscriptHead) (v : Bool)
    → head ≡ head_after noble none (signings noble p ordered)
    → ((h : TranscriptHead) → o ≡ some h → IsHead noble p ordered h)
    → v ≡ true
    → with_head (check_head noble p head (last_seq_from 0 ordered) o) v ≡ true
unfolding check_head
head-valid noble p ordered head none v folded i e = e
head-valid noble p ordered head (some h) v folded i e =
    let held = i h refl in
    let signed : signed_head noble p.session_id h (lookup_id h.signer p.ids) ≡ true =
      simp (held.pinned, held.signature_hex, held.signed) in
    let hash = (str_eq_iff _ _).1 (held.head_hash ∙ ap (hex_or_empty noble) (sym folded)) in
    let last = (==_iff _ _).1 held.last_seq in conclude _ _ _ signed hash last
  where
    conclude :
        (a b c : Bool) → a ≡ true → b ≡ true → c ≡ true → with_head (some (a && b && c)) v ≡ true
    conclude true true true p q r = e
    conclude false b c p q r = cc
    conclude true false c p q r = cc
    conclude true true false p q r = cc

-- The verdict is exact: `valid` is true of a bundle if and only if the bundle proves itself.
pub valid_iff :
    (noble : Noble) (bundle : TranscriptBundle)
    → ((verify_transcript noble bundle).valid ≡ true) ↔ IsProven noble bundle
unfolding verify_transcript pin
valid_iff noble bundle = (
  valid-IsProven noble bundle,
  λ proven.
      let flag = (check_members noble bundle.members (is_cons bundle.members, [])).0 in
      let w : Walk = record { head = none; valid = flag; messages = []; by_id = [] } in
      let ordered = sort_entries bundle.messages in
      head-valid noble (pin noble bundle) ordered _ bundle.head _
        (head-walk noble (pin noble bundle) ordered w) proven.head
        (walk-valid noble (pin noble bundle) ordered w proven.messages
          (check_members-IsGenuine noble bundle.members _ proven.members proven.some_member)),
)
