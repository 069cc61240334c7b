-- ===== src/Core/Transcript/Agreed.antt =====
-- The agreements that `verifyTranscript` reports, against the messages that it reports.
use randevu.Base.{
  true, Option, none, some, List, [], ◌∷◌, ◌++◌, Str, str_eq, str_eq_iff, ◌≡◌, refl, sym, ◌∙◌, All,
  Bool-cases, Option-cases, ◌⊎◌, inl, inr, subst,
}
use mathlib.Core.List.{Mem, mem-append_left, mem-append_right, mem-cons_self, mem-cons_of_mem}
use randevu.Noble.{Noble}
use randevu.Core.Message.{SignableEnvelope}
use randevu.Core.Transcript.{
  TranscriptMessageEntry, VerifiedTranscriptMessage, Agreement, Pinned, Walk, envelope,
  lookup_message, undecodable, decodable, walk_with, walk, accepts, or_empty, agreement_on,
  agreements_of,
}

-- What an accepted message is: one of the reported ones, by the id the acceptance names; its sender
-- and its body are the ones reported. With none there, both are absent.
abbrev pub IsResolved : List VerifiedTranscriptMessage → Agreement → Type 0
IsResolved messages a =
    ((a.accepted_sender_id ≡ none) × (a.accepted_body ≡ none))
    ⊎ ((o : VerifiedTranscriptMessage) × (Mem o messages
          × ((o.id ≡ a.accepts_id)
              × ((a.accepted_sender_id ≡ some o.sender_id) × (a.accepted_body ≡ o.body)))))

-- An agreement comes from a reported `accept` message with a valid signature and chain link.
pub record IsBacked (messages : List VerifiedTranscriptMessage) (a : Agreement) : Type 0 where
  pub message : VerifiedTranscriptMessage
  pub reported : Mem message messages
  pub accepting : accepts message ≡ true
  pub accepter : message.sender_id ≡ a.accepter
  pub ref : or_empty message.ref ≡ a.accepts_id
  pub resolved : IsResolved messages a

-- `byId` holds reported messages under their own ids.
abbrev IsIndex : List VerifiedTranscriptMessage → List (Str × VerifiedTranscriptMessage) → Type 0
IsIndex messages by_id = All (λ p. (p.1.id ≡ p.0) × Mem p.1 messages) by_id

IsIndex-append :
    (messages more : List VerifiedTranscriptMessage)
    (by_id : List (Str × VerifiedTranscriptMessage))
    → IsIndex messages by_id
    → IsIndex (messages ++ more) by_id
IsIndex-append messages more [] h = tt
IsIndex-append messages more (p ∷ by_id) h =
    ((h.0.0, mem-append_left more h.0.1), IsIndex-append messages more by_id h.1)

pub walk-IsIndex :
    (noble : Noble) (p : Pinned) (ms : List TranscriptMessageEntry) (w : Walk)
    → IsIndex w.messages w.by_id
    → IsIndex (walk noble p w ms).messages (walk noble p w ms).by_id
unfolding walk undecodable decodable
walk-IsIndex noble p [] w h = h
walk-IsIndex noble p (m ∷ ms) w h = walk-IsIndex noble p ms _ (step (envelope noble p.session_id m))
  where
    step :
        (o : Option SignableEnvelope)
        → IsIndex (walk_with noble p w m o).messages (walk_with noble p w m o).by_id
    step none = IsIndex-append w.messages _ w.by_id h
    step (some env) =
        ((refl, mem-append_right w.messages mem-cons_self), IsIndex-append w.messages _ w.by_id h)

lookup_message-IsIndex :
    (messages : List VerifiedTranscriptMessage) (by_id : List (Str × VerifiedTranscriptMessage))
    (k : Str) (o : VerifiedTranscriptMessage)
    → IsIndex messages by_id
    → lookup_message k by_id ≡ some o
    → (o.id ≡ k) × Mem o messages
unfolding lookup_message
lookup_message-IsIndex messages [] k o h e = cc
lookup_message-IsIndex messages ((j, v) ∷ by_id) k o h e = elim (Bool-cases (str_eq j k)) [
  | inl t ↦
      let here : v ≡ o = cc e in
      subst (λ x. (x.id ≡ k) × Mem x messages) here (h.0.0 ∙ (str_eq_iff j k).0 t, h.0.1)
  | inr n ↦ lookup_message-IsIndex messages by_id k o h.1 (rw n refl ∙ e)
]

agreement_on-IsBacked :
    (messages : List VerifiedTranscriptMessage) (by_id : List (Str × VerifiedTranscriptMessage))
    (m : VerifiedTranscriptMessage)
    → IsIndex messages by_id
    → Mem m messages
    → accepts m ≡ true
    → IsBacked messages (agreement_on m (lookup_message (or_empty m.ref) by_id))
agreement_on-IsBacked messages by_id m h here a =
    elim (Option-cases (lookup_message (or_empty m.ref) by_id)) [
      | inl n ↦
          subst (λ x. IsBacked messages (agreement_on m x)) (sym n)
            (record {
              message = m;
              reported = here;
              accepting = a;
              accepter = refl;
              ref = refl;
              resolved = inl (refl, refl);
            })
      | inr (o, e) ↦
          let (i, there) = lookup_message-IsIndex messages by_id (or_empty m.ref) o h e in
          subst (λ x. IsBacked messages (agreement_on m x)) (sym e)
            (record {
              message = m;
              reported = here;
              accepting = a;
              accepter = refl;
              ref = refl;
              resolved = inr (o, (there, (i, (refl, refl))));
            })
    ]

pub agreements_of-IsBacked :
    (messages : List VerifiedTranscriptMessage) (by_id : List (Str × VerifiedTranscriptMessage))
    (ms : List VerifiedTranscriptMessage)
    → IsIndex messages by_id
    → ((m : VerifiedTranscriptMessage) → Mem m ms → Mem m messages)
    → All (IsBacked messages) (agreements_of by_id ms)
unfolding agreements_of
agreements_of-IsBacked messages by_id [] h sub = tt
agreements_of-IsBacked messages by_id (m ∷ ms) h sub =
    let rest = agreements_of-IsBacked messages by_id ms h (λ x i. sub x (mem-cons_of_mem m i)) in
    elim (Bool-cases (accepts m)) [
      | inl t ↦ rw t (agreement_on-IsBacked messages by_id m h (sub m mem-cons_self) t, rest)
      | inr n ↦ rw n rest
    ]
