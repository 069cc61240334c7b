-- ===== src/Core/Transcript/Members.antt =====
-- The loop of `verifyTranscript` over the members: what `membersValid` says of the pinned keys.
use randevu.Base.{
  Bool, true, false, not, ◌||◌, Option, none, some, List, [], ◌∷◌, Str, str_eq, ◌≡◌, refl, ◌∙◌,
  if◌then◌else◌, All, Bool-cases, inl, inr, subst, str_eq_iff,
}
use randevu.Noble.{Noble, Bytes}
use randevu.Core.Crypto.{fingerprint, did_key_from_ed25519}
use randevu.Core.Transcript.{TranscriptMember, lookup_id, check_member, check_members}

-- The member's key decodes, and its fingerprint and its did are the ones listed.
pub record IsGenuine (noble : Noble) (m : TranscriptMember) : Type 0 where
  pub pub_key : Bytes
  pub decodes : noble.hex_to_bytes m.identity_pub ≡ some pub_key
  pub fingerprint : fingerprint noble pub_key ≡ m.fingerprint
  pub did : did_key_from_ed25519 noble pub_key ≡ m.did

-- A pinned key has the fingerprint that it is pinned under.
abbrev pub IsPinning : Noble → List (Str × Bytes) → Type 0
IsPinning noble ids = All (λ p. fingerprint noble p.1 ≡ p.0) ids

pub lookup_id-IsPinning :
    (noble : Noble) (f : Str) (ids : List (Str × Bytes)) (k : Bytes)
    → IsPinning noble ids
    → lookup_id f ids ≡ some k
    → fingerprint noble k ≡ f
unfolding lookup_id
lookup_id-IsPinning noble f [] k h e = cc
lookup_id-IsPinning noble f ((j, v) ∷ ids) k h e = elim (Bool-cases (str_eq j f)) [
  | inl t ↦
      let here : v ≡ k = cc e in
      subst (λ x. fingerprint noble x ≡ f) here (h.0 ∙ (str_eq_iff j f).0 t)
  | inr n ↦ lookup_id-IsPinning noble f ids k h.1 (rw n refl ∙ e)
]

-- One member: the flag stays true only with a genuine member, whose key is then pinned.
check_member-true :
    (noble : Noble) (m : TranscriptMember) (o : Option Bytes) (s : Bool × List (Str × Bytes))
    → noble.hex_to_bytes m.identity_pub ≡ o
    → (check_member noble m o s).0 ≡ true
    → (s.0 ≡ true)
      × (IsGenuine noble m × (IsPinning noble s.1 → IsPinning noble (check_member noble m o s).1))
check_member-true noble m none (valid, ids) d h = cc
check_member-true noble m (some k) (valid, ids) d h =
    let (f, (i, v)) = both _ _ _ h in
    (
      v,
      (
        record {
          pub_key = k;
          decodes = d;
          fingerprint = (str_eq_iff _ _).0 f;
          did = (str_eq_iff _ _).0 i;
        },
        λ p. ((str_eq_iff _ _).0 f, p),
      ),
    )
  where
    both :
        (a b v : Bool)
        → (if not a || not b then false else v) ≡ true
        → (a ≡ true) × ((b ≡ true) × (v ≡ true))
    both false b v h = cc
    both true false v h = cc
    both true true v h = (refl, (refl, h))

pub check_members-true :
    (noble : Noble) (ms : List TranscriptMember) (s : Bool × List (Str × Bytes))
    → (check_members noble ms s).0 ≡ true
    → (s.0 ≡ true)
      × (All (IsGenuine noble) ms
          × (IsPinning noble s.1 → IsPinning noble (check_members noble ms s).1))
unfolding check_members
check_members-true noble [] s h = (h, (tt, λ p. p))
check_members-true noble (m ∷ ms) s h =
    let (t, (rest, pinned)) = check_members-true noble ms _ h in
    let (v, (genuine, kept)) =
      check_member-true noble m (noble.hex_to_bytes m.identity_pub) s refl t in
    (v, ((genuine, rest), λ p. pinned (kept p)))
