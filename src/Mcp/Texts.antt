-- ===== src/Mcp/Texts.antt =====
-- The texts of the hosted server's tools: `pauseNote` of apps/mcp/src/lib.ts, and what the handlers of
-- apps/mcp/src/index.ts write.
use randevu.Base.{
  ℕ, zero, suc, ◌+◌, ◌/◌, max, Option, none, some, List, [], ◌∷◌, ◌++◌, map, Str, text, decimal,
  str_eq, join_by, if◌then◌else◌,
}
use randevu.Core.Kinds.{comma_separated, room_context, guidance_for, or_no_text}
use randevu.Mcp.Room.{RoomMessage, JoinResult, RoomStatus, or_text}

-- Math.max(1, Math.round(seconds / 60))
abbrev pub minutes : ℕ → ℕ
minutes seconds = max 1 ((seconds + 30) / 60)

abbrev pub last_message : List RoomMessage → Option RoomMessage
last_message [] = none
last_message (m ∷ []) = some m
last_message (m ∷ n ∷ ms) = last_message (n ∷ ms)

-- A missing hint and a hint of zero are both falsy.
abbrev pub back_in : Option ℕ → Str
back_in none = []
back_in (some zero) = []
back_in (some (suc n)) =
    text " (expects to be back in ~" ++ (decimal (minutes (suc n)) ++ text " min)")

abbrev pub note_for : Option RoomMessage → Str
unfolding decimal str_eq
note_for none = []
note_for (some m) =
    if str_eq (or_no_text m.type) (text "awaiting_human")
    then text "\n\n⏸ "
      ++ (m.from
          ++ (text " stepped away to consult their human"
              ++ (back_in m.retry_after
                  ++ text
                      ". Don't keep long-polling — end your turn and resume later with wait_for_message(after: the cursor below).")))
    else []

unfoldable pub pause_note : List RoomMessage → Str
unfolding note_for
pause_note messages = note_for (last_message messages)

-- type ? `before${type}after` : ""
abbrev pub type_mark : Str → Str → Option Str → Str
type_mark before after (some (c ∷ t)) = before ++ (c ∷ t ++ after)
type_mark before after _ = []

unfoldable pub message_line : RoomMessage → Str
unfolding decimal
message_line m =
    text "#"
    ++ (decimal m.seq
        ++ (text " "
            ++ (m.from ++ (type_mark (text " (") (text ")") m.type ++ (text ": " ++ m.text)))))

unfoldable pub messages_or : Str → List RoomMessage → Str
unfolding message_line join_by
messages_or nothing [] = nothing
messages_or nothing (m ∷ ms) = join_by 10 (map message_line (m ∷ ms))

-- The body, the note and the cursor that the reading tools answer with.
unfoldable pub reading_text : Str → List RoomMessage × ℕ → Str
unfolding messages_or pause_note decimal
reading_text nothing (messages, cursor) =
    messages_or nothing messages ++ (pause_note messages ++ (text "\n\ncursor: " ++ decimal cursor))

unfoldable pub sent_text : ℕ → Option Str → Str
unfolding decimal
sent_text seq type =
    text "sent (#" ++ (decimal seq ++ (text ")" ++ type_mark (text " [") (text "]") type))

unfoldable pub context_text : JoinResult → Str
unfolding room_context
context_text r = room_context r.kind r.role r.brief (some r.role_guidance)

unfoldable pub joined_text : Str → Str → JoinResult → Str
unfolding context_text
joined_text room_id name r =
    text "Joined "
    ++ (room_id
        ++ (text " (kind: "
            ++ (r.kind
                ++ (text ") as \""
                    ++ (name
                        ++ (text "\", role: "
                            ++ (r.role
                                ++ (text ". Members: "
                                    ++ (comma_separated r.members
                                        ++ (text ".\n\n" ++ context_text r))))))))))

-- st.roles[m] ? `${m} (${st.roles[m]})` : m
abbrev pub member_text : List (Str × Str) → Str → Str
unfolding guidance_for
member_text roles m = m ++ type_mark (text " (") (text ")") (guidance_for m roles)

abbrev pub member_list : List (Str × Str) → List Str → Str
unfolding member_text
member_list roles [] = text "(none yet)"
member_list roles (m ∷ ms) = comma_separated (map (member_text roles) (m ∷ ms))

unfoldable pub status_text : RoomStatus → Str
unfolding member_list decimal
status_text st =
    text "kind: "
    ++ (or_text st.kind (text "—")
        ++ (text "\nmembers: "
            ++ (member_list st.roles st.members ++ (text "\nmessages: " ++ decimal st.last_seq))))
