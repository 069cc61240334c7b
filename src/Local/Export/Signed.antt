-- ===== src/Local/Export/Signed.antt =====
-- The signed head of an exported transcript.
use randevu.Base.{
  ℕ, Bool, true, ◌&&◌, str_eq, none, some, List, ◌∷◌, map, Str, str_eq_refl, ==_iff, ◌≡◌, refl, sym,
  ap, ◌∙◌, subst,
}
use mathlib.Core.Path.{subst₂}
use randevu.Noble.{Noble, Bytes}
use randevu.Core.Crypto.{KeyPair, identity_key_pair_from_private, sign, verify}
use randevu.Core.Message.Chain.{head_after}
use randevu.Core.GroupKey.Agreement.{SignatureLaws}
use randevu.Core.Transcript.{
  TranscriptMember, TranscriptBundle, lookup_id, hex_or_empty, last_seq_from, check_head, pin,
  sort_entries, sign_transcript_head, verify_transcript,
}
use randevu.Core.Transcript.Walking.{signings, head-walk}
use randevu.Local.Action.{
  Attempt, done, then-done, or_foreign, or_foreign-done, same_state, same_value,
}
use randevu.Local.Data.{Local, MessageDto}
use randevu.Local.Api.{RelayApi, Party, require_session, require_session-joined}
use randevu.Local.Folding.{entry_of, pull}
use randevu.Local.Folding.Head.{
  IsFolded, IsAscending, logged, signings-session, sort_entries-IsAscending, pull-IsFolded,
}
use randevu.Local.Export.{listed_members, bundle_of, entries, export_transcript}

all_true : (a b c : Bool) → a ≡ true → b ≡ true → c ≡ true → some (a && b && c) ≡ some true
all_true a b c p q r = rw (p, q, r) refl

module _ (noble : Noble) (id : Str) (me : Local) (members : List TranscriptMember)
    (sk : Bytes) where
  -- A bundle whose head was kept in step, and whose member list shows the signer's key, has a head that
  -- holds.
  bundle_of-head :
      IsFolded noble id me
      → SignatureLaws noble
      → me.identity ≡ identity_key_pair_from_private noble sk
      → lookup_id me.member_id (pin noble (bundle_of noble id me members)).ids
        ≡ some (noble.ed25519_public sk)
      → (verify_transcript noble (bundle_of noble id me members)).head_valid ≡ some true
  unfolding verify_transcript bundle_of check_head sign_transcript_head sign verify
      identity_key_pair_from_private entries entry_of
  bundle_of-head f laws pair listed =
      let p = pin noble (bundle_of noble id me members) in
      let ordered = sort_entries (sort_entries (entries me.log)) in
      let sorted : ordered ≡ logged me.log =
        ap sort_entries (sort_entries-IsAscending 0 (logged me.log) f.ascending)
        ∙ sort_entries-IsAscending 0 (logged me.log) f.ascending in
      let ends : me.fetched_seq ≡ last_seq_from 0 ordered =
        f.fetched ∙ ap (last_seq_from 0) (sym sorted) in
      let heads : me.head ≡ head_after noble none (signings noble p ordered) =
        f.head
        ∙ ap (head_after noble none) (sym (signings-session noble id p.ids p.keys (logged me.log)))
        ∙ ap (λ ms. head_after noble none (signings noble p ms)) (sym sorted) in
      let private : me.identity.private_key ≡ sk = ap (λ (k : KeyPair). k.private_key) pair in
      all_true _ _ _ (rw (listed, private, laws.hex, laws.accepted) refl)
        (ap (λ h. str_eq (hex_or_empty noble me.head) (hex_or_empty noble h))
            (head-walk noble p ordered _ ∙ sym heads)
          ∙ str_eq_refl (hex_or_empty noble me.head))
        ((==_iff _ _).1 ends)

-- A transcript that is exported inside a session has a signed head that `verifyTranscript` finds valid:
-- of a member whose head, cursor and log were in step before, from a relay that answers with numbers that
-- go up from the cursor, if the bundle's member list shows the exporter's own key.
pub export_transcript-head_valid :
    {W : Type 0} (noble : Noble) (api : RelayApi W) (s s' : Party W) (bundle : TranscriptBundle)
    (c : ℕ) (t : Str) (sk : Bytes)
    → SignatureLaws noble
    → s.me.session_id ≡ some (c ∷ t)
    → IsFolded noble (c ∷ t) s.me
    → ((ms : List MessageDto) (w : W)
        → api.get_messages (c ∷ t) s.me.fetched_seq s.world ≡ (done ms, w)
        → IsAscending s.me.fetched_seq (map entry_of ms))
    → export_transcript noble api s ≡ (done bundle, s')
    → s'.me.identity ≡ identity_key_pair_from_private noble sk
    → lookup_id s'.me.member_id (pin noble bundle).ids ≡ some (noble.ed25519_public sk)
    → (verify_transcript noble bundle).head_valid ≡ some true
unfolding export_transcript
export_transcript-head_valid {W} noble api s s' bundle c t sk laws joined f up h pair listed =
    let (id, (s₀, (got, h₁))) = then-done (require_session s) _ h in
    let same = sym got ∙ require_session-joined s c t joined in
    let id_is : id ≡ c ∷ t = same_value same in
    let (u, (s₁, (pulled, h₂))) = then-done (pull noble api s₀) _ h₁ in
    let (members, (s₂, (got₂, h₃))) =
      then-done (or_foreign (listed_members noble s₁.me.members_by_id) s₁) _ h₂ in
    let (decoded, e₂) = or_foreign-done (listed_members noble s₁.me.members_by_id) got₂ in
    let e₃ : s₁ ≡ s' = e₂ ∙ same_state h₃ in
    let is_bundle : bundle_of noble (c ∷ t) s₁.me members ≡ bundle =
      ap (λ i. bundle_of noble i s₁.me members) (sym id_is) ∙ same_value h₃ in
    let at_end : (pull noble api s).1 ≡ s₁ =
      ap (λ p. (pull noble api p).1) (sym (same_state same))
      ∙ ap (λ (r : Attempt (Unit {0}) × Party W). r.1) pulled in
    let kept : IsFolded noble (c ∷ t) s₁.me =
      subst (λ (p : Party W). IsFolded noble (c ∷ t) p.me) at_end
        (pull-IsFolded noble api s c t joined f up) in
    subst (λ b. (verify_transcript noble b).head_valid ≡ some true) is_bundle
      (bundle_of-head noble (c ∷ t) s₁.me members sk kept laws
        (subst (λ (p : Party W). p.me.identity ≡ identity_key_pair_from_private noble sk) (sym e₃)
          pair)
        (subst₂
          (λ (p : Party W) b.
            lookup_id p.me.member_id (pin noble b).ids ≡ some (noble.ed25519_public sk))
          (sym e₃) (sym is_bundle) listed))
