-- ===== src/Core/Kinds/Table.antt =====
-- The table `KINDS` of packages/core/src/kinds.ts. A name that a JavaScript object inherits from its
-- prototype is no key here.
use randevu.Base.{Option, some, List, [], ◌∷◌, Str, text}

pub record KindDef : Type 0 where
  pub summary : Str
  pub goal : Str
  -- role name and guidance, in order
  pub roles : List (Str × Str)
  pub message_types : Option (List Str)
  pub tips : List Str
  pub escalate : Option Str

abbrev pub negotiation : KindDef
negotiation = record {
  summary =
      text
        "Two parties negotiate terms. Typed back-and-forth (offer → counter → accept/reject); consecutive messages are fine (e.g. 'checking with my human' then the decision).";
  goal =
      text
        "Reach an explicit agreement both sides accept — the exact final terms stated and confirmed — or a clean walk-away.";
  roles =
      (
        text "buyer",
        text
            "You represent the buyer. Seek favorable terms and price, probe for flexibility, and only accept within your human's mandate.",
      )
      ∷ (
        text "seller",
        text
            "You represent the seller. Anchor with a fair offer, justify value, protect margin, and only accept within your human's mandate.",
      )
      ∷ [];
  message_types = some (text "offer" ∷ text "counter" ∷ text "accept" ∷ text "reject" ∷ []);
  tips =
      text "Reference the specific offer you are responding to."
      ∷ text "State assumptions and constraints explicitly."
      ∷ text "Restate the exact final terms before you accept."
      ∷ [];
  escalate =
      some (text "accepting terms, price, or conditions outside the mandate your human gave you.");
}

abbrev scheduling : KindDef
scheduling = record {
  summary = text "Find a time that works for both parties and confirm it.";
  goal = text "One specific date + time (with time zone) that both sides have confirmed.";
  roles =
      (text "organizer", text "You propose candidate times and drive toward a confirmed slot.")
      ∷ (text "guest", text "You share availability and accept or counter proposed times.")
      ∷ [];
  message_types = some (text "propose" ∷ text "accept" ∷ text "decline" ∷ []);
  tips =
      text "Use concrete dates and time zones, not weekday names alone."
      ∷ text "Confirm the single final slot explicitly before ending."
      ∷ text "Decide who creates the calendar entry (or each adds it on their own side)."
      ∷ [];
  escalate = some (text "committing your human to a time you have not pre-cleared with them.");
}

abbrev drafting : KindDef
drafting = record {
  summary = text "Co-author a document (contract, spec, proposal) clause by clause.";
  goal = text "A final text both parties have explicitly approved.";
  roles =
      (text "author", text "You propose the initial draft and fold in the other side's edits.")
      ∷ (
        text "reviewer",
        text "You redline and propose changes; both sides must approve the final text.",
      )
      ∷ [];
  message_types = some (text "draft" ∷ text "edit" ∷ text "approve" ∷ text "reject" ∷ []);
  tips =
      text "Quote the exact clause you are changing."
      ∷ text "Keep one current version; note what changed each round."
      ∷ text "Get an explicit approve from both sides before treating it as final."
      ∷ [];
  escalate = some (text "approving final wording that commits your human.");
}

abbrev brainstorm : KindDef
brainstorm = record {
  summary = text "Explore ideas together toward a shared proposal. Diverge, then converge.";
  goal = text "A short list of agreed ideas or a single shared proposal to take back.";
  roles =
      (
        text "peer",
        text
            "You are an equal collaborator: contribute ideas, build on the other's, and help converge.",
      )
      ∷ [];
  message_types = some (text "idea" ∷ text "build" ∷ text "converge" ∷ []);
  tips =
      text "Separate exploring from deciding."
      ∷ text "Summarize what you have agreed periodically."
      ∷ [];
  escalate = some (text "committing to a direction your human has not signed off on.");
}

abbrev interview : KindDef
interview = record {
  summary = text "A structured question-and-answer exchange to assess fit or gather information.";
  goal = text "Enough exchanged for the interviewer to reach a decision or clear next step.";
  roles =
      (
        text "interviewer",
        text "You ask focused questions and probe answers; you do not decide beyond your mandate.",
      )
      ∷ (
        text "candidate",
        text "You answer clearly and truthfully within what your human authorized you to share.",
      )
      ∷ [];
  message_types = some (text "question" ∷ text "answer" ∷ text "followup" ∷ []);
  tips =
      text "Ask one thing at a time."
      ∷ text "Do not volunteer more than your human authorized."
      ∷ [];
  escalate = some (text "making or accepting an offer, or sharing anything beyond your mandate.");
}

abbrev intro : KindDef
intro = record {
  summary = text "Two parties get acquainted and decide whether to take things further.";
  goal =
      text
        "A shared decision on whether — and how — to proceed to a real session (a deal, a meeting, etc.).";
  roles =
      (
        text "peer",
        text
            "You represent your human at an early, non-binding stage: exchange context and gauge fit.",
      )
      ∷ [];
  message_types = some (text "message" ∷ text "propose" ∷ text "agree" ∷ []);
  tips =
      text "Keep it light and non-binding."
      ∷ text "If it looks promising, propose a concrete next step or room kind."
      ∷ [];
  escalate = some (text "agreeing to anything binding.");
}

abbrev pub kinds : List (Str × KindDef)
kinds =
    (text "negotiation", negotiation)
    ∷ (text "scheduling", scheduling)
    ∷ (text "drafting", drafting)
    ∷ (text "brainstorm", brainstorm)
    ∷ (text "interview", interview)
    ∷ (text "intro", intro)
    ∷ []
