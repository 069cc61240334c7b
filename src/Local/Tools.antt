-- ===== src/Local/Tools.antt =====
-- The tools of the local server: the handlers of packages/local/src/mcp.ts over `RandevuLocal`.
-- JSON.stringify is left to the caller: an answer in JSON holds its value.
pub mod Bounded
use randevu.Base.{
  ℕ, ◌*◌, min, max, Bool, Option, none, some, List, [], ◌∷◌, ◌++◌, length, Str, text, decimal,
}
use randevu.Core.Credential.Values.{Fields, Texts}
use randevu.Core.Credential.{MandateKind}
use randevu.Core.Invite.Link.{Uri}
use randevu.Core.Kinds.{list_kinds, or_no_text}
use randevu.Core.Transcript.{TranscriptBundle}
use randevu.Local.Action.{Action, ◌>>=◌, give}
use randevu.Local.Api.{Party}
use randevu.Local.Data.{Local, ReceivedMessage, Randoms}
use randevu.Local.Export.{LocalStatus, get_status, get_sas, export_transcript}
use randevu.Local.Folding.{receive}
use randevu.Local.Issuing.{issue, mandate}
use randevu.Local.Rooming.{
  Client, Clock, Seat, OpenedRoom, JoinedRoom, open_room, join_room, in_party, here, or_text,
}
use randevu.Local.Sending.{send}
use randevu.Local.Waiting.{wait_for_message, send_and_wait}
use randevu.Noble.{Noble}

pub data Answer (N : Type 0) : Type 0 where
  text_answer : Str → Answer N
  seq_answer : ℕ → Answer N
  messages_answer : List ReceivedMessage → Answer N
  reply_answer : ℕ → List ReceivedMessage → Answer N
  status_answer : LocalStatus → Answer N
  sas_answer : Str × List Str → Answer N
  transcript_answer : TranscriptBundle → Answer N
  credential_answer : Fields N → Answer N

abbrev or_dash : Str → Str
or_dash s = or_text s (text "—")

-- r.context ? `\n${r.context}` : ""
abbrev context_line : Str → Str
context_line [] = []
context_line (c ∷ s) = text "\n" ++ c ∷ s

unfoldable pub ready_text : OpenedRoom → Str
ready_text r =
    text "Room ready (kind: "
    ++ (or_dash r.kind
        ++ (text ") — your role: "
            ++ (or_dash r.role
                ++ (text
                      ".\nShare this link with the other party out-of-band (or the raw invite below it):\n"
                    ++ (r.link
                        ++ (text "\n" ++ (r.invite ++ (text "\n" ++ context_line r.context))))))))

unfoldable pub joined_text : JoinedRoom → Str
unfolding decimal
joined_text r =
    text "Joined (kind: "
    ++ (or_dash r.kind
        ++ (text ") — your role: "
            ++ (or_dash r.role
                ++ (text ". Members: "
                    ++ (decimal (length r.members) ++ (text ".\n" ++ context_line r.context))))))

-- Math.max(1, Math.min(55, seconds)) * 1000
abbrev pub timeout_ms : ℕ → ℕ
timeout_ms seconds = max 1 (min 55 seconds) * 1000

-- type ?? "message"
abbrev or_message : Option Str → Str
or_message none = text "message"
or_message (some t) = t

abbrev pub consulting_text : Str → ℕ → Str
unfolding decimal
consulting_text note seq =
    text "Posted (#"
    ++ (decimal seq
        ++ (text ") that you're consulting your human. Now END your turn and ask: \""
            ++ (note ++ text "\". Send the reply when they answer.")))

-- Where the loop of a wait has no fuel left there is no answer.
abbrev pub messages_if : {N : Type 0} → Option (List ReceivedMessage) → Option (Answer N)
messages_if none = none
messages_if (some ms) = some (messages_answer ms)

abbrev pub reply_if : {N : Type 0} → ℕ × Option (List ReceivedMessage) → Option (Answer N)
reply_if (seq, none) = none
reply_if (seq, some ms) = some (reply_answer seq ms)

-- The texts of JSON values, the percent coding, the clients by their addresses, and the clock.
module _ {W N : Type 0} (noble : Noble) (texts : Texts N) (uri : Uri) (connect : Str → Client W)
    (clock : Clock W) where
  unfoldable pub open_room_tool : Option Str → Option Str → ℕ → Action (Seat W) (Answer N)
  unfolding open_room ready_text
  open_room_tool kind role max_members = do
    r ← open_room noble uri connect (or_no_text kind) (or_no_text role) max_members
    give (text_answer (ready_text r))

  unfoldable pub join_room_tool : Str → Option Str → Option Str → Action (Seat W) (Answer N)
  unfolding join_room joined_text
  join_room_tool invite kind role = do
    r ← join_room noble uri connect invite (or_no_text kind) (or_no_text role)
    give (text_answer (joined_text r))

  unfoldable pub send_tool : Randoms → Str → Option Str → Option Str → Action (Seat W) (Answer N)
  unfolding send
  send_tool rand body type ref = do
    s ← here
    seq ← in_party (send noble (connect s.endpoint).api rand body (or_message type) ref)
    give (seq_answer seq)

  unfoldable pub receive_tool : Randoms → Action (Seat W) (Answer N)
  unfolding receive
  receive_tool rand = do
    s ← here
    messages ← in_party (receive noble (connect s.endpoint).api rand)
    give (messages_answer messages)

  unfoldable pub wait_tool : (ℕ → Randoms) → ℕ → ℕ → Action (Seat W) (Option (Answer N))
  unfolding wait_for_message
  wait_tool rand fuel seconds = do
    s ← here
    found ←
        in_party (wait_for_message clock noble (connect s.endpoint) rand fuel (timeout_ms seconds))
    give (messages_if found)

  unfoldable pub send_and_wait_tool :
      (ℕ → Randoms) → ℕ → Str → Option Str → ℕ → Action (Seat W) (Option (Answer N))
  unfolding send_and_wait
  send_and_wait_tool rand fuel body type seconds = do
    s ← here
    found ← in_party (
        send_and_wait clock noble (connect s.endpoint) rand fuel body (or_message type)
          (timeout_ms seconds))
    give (reply_if found)

  unfoldable pub pause_tool : Randoms → Str → Action (Seat W) (Answer N)
  unfolding send consulting_text
  pause_tool rand note = do
    s ← here
    seq ← in_party (send noble (connect s.endpoint).api rand note (text "awaiting_human") none)
    give (text_answer (consulting_text note seq))

  unfoldable pub list_kinds_tool : Action (Seat W) (Answer N)
  unfolding list_kinds
  list_kinds_tool = give (text_answer list_kinds)

  unfoldable pub status_tool : Randoms → Action (Seat W) (Answer N)
  unfolding get_status
  status_tool rand = do
    s ← here
    status ← in_party (get_status noble (connect s.endpoint).api rand)
    give (status_answer status)

  unfoldable pub sas_tool : Action (Seat W) (Answer N)
  unfolding get_sas
  sas_tool = do
    s ← here
    sas ← in_party (get_sas noble (connect s.endpoint).api)
    give (sas_answer sas)

  unfoldable pub transcript_tool : Action (Seat W) (Answer N)
  unfolding export_transcript
  transcript_tool = do
    s ← here
    bundle ← in_party (export_transcript noble (connect s.endpoint).api)
    give (transcript_answer bundle)

  unfoldable pub credential_tool : Fields N → Action (Seat W) (Answer N)
  unfolding issue
  credential_tool subject = do
    s ← here
    give (credential_answer (issue noble texts s.party.me subject))

  unfoldable pub mandate_tool : MandateKind → Fields N → Action (Seat W) (Answer N)
  unfolding mandate
  mandate_tool kind subject = do
    s ← here
    give (credential_answer (mandate noble texts s.party.me kind subject))
