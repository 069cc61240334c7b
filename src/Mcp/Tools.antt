-- ===== src/Mcp/Tools.antt =====
-- The tools of the hosted server: the handlers of apps/mcp/src/index.ts over the rooms of its namespace.
-- A handler maps the rooms to its text and the rooms it leaves.
pub mod Apart
pub mod Said
use randevu.Base.{
  ℕ, ◌+◌, ◌*◌, min, max, Bool, true, false, ◌&&◌, not, Option, none, some, List, [], ◌∷◌, ◌++◌, map,
  Str, text, decimal, join_by, if◌then◌else◌,
}
use randevu.Base.Outcome.{Outcome, returns, throws}
use randevu.Core.Invite.{is_empty}
use randevu.Core.Kinds.{comma_separated, list_kinds, or_no_text}
use randevu.Mcp.Invitations.{Env, OpenInput, invite_link, notes_on, opened_text}
use randevu.Core.Waiters.{Waiters, no_waiters, wake_all, Polled, unfinished, rejected, resolved_to}
use randevu.Mcp.Room.{
  RoomHost, Cells, RoomMessage, JoinResult, or_else, join, open_room, send, receive, status, wait,
}
use randevu.Mcp.Texts.{minutes, reading_text, sent_text, joined_text, status_text, context_text}
use randevu.Relay.Store.{Store, get, put}

-- The rooms by their codes; a code that nothing was written under is a room without cells.
abbrev pub Rooms : Type 0
Rooms = Store Cells

abbrev pub no_cells : Cells
no_cells = record {
  is_open = none;
  seq = none;
  members = none;
  roles = none;
  kind = none;
  brief = none;
  custom_roles = none;
  messages = [];
}

unfoldable pub room : Rooms → Str → Cells
unfolding get
room rooms code = or_else (get rooms code) no_cells

abbrev pub Answer : Type 0
Answer = Outcome Str × Rooms

abbrev pub in_room {ℓ} : {A : Type ℓ} → Rooms → Str → (A → Str) → A × Cells → Answer
unfolding put
in_room rooms code f (a, c) = (returns (f a), put rooms code c)

-- The link is made after the room is opened: where its encoding throws, the room stays open.
abbrev pub opened : Env → Rooms → Str → OpenInput → Outcome JoinResult × Cells → Answer
unfolding invite_link notes_on opened_text
opened env rooms code input (throws e, c) = (throws e, put rooms code c)
opened env rooms code input (returns r, c) = elim (invite_link env code input.purpose) [
  | none ↦ (throws (text "URI malformed"), put rooms code c)
  | some link ↦ (
    returns (
        opened_text code input.name link (notes_on env input code link (or_else input.invites []))
          r),
    put rooms code c,
  )
]

-- The new room's code is an argument.
unfoldable pub open_room_tool : Env → Rooms → Str → OpenInput → Answer
unfolding opened room open_room
open_room_tool env rooms code input = opened env rooms code input (
    open_room (room rooms code) input.name (or_no_text input.kind) (or_no_text input.role)
      (or_no_text input.brief) (or_else input.roles []))

abbrev pub join_answer : Str → Str → Rooms → Outcome JoinResult × Cells → Answer
unfolding joined_text
join_answer code name rooms (returns r, c) = (returns (joined_text code name r), put rooms code c)
join_answer code name rooms (throws e, c) = (
  returns (text "⚠ " ++ (e ++ text ". Check the room code with the person who invited you.")),
  put rooms code c,
)

unfoldable pub join_room_tool : Rooms → Str → Str → Option Str → Answer
unfolding join_answer room join
join_room_tool rooms code name role =
    join_answer code name rooms (join (room rooms code) name (or_no_text role))

-- Writing of a room's cells happens in `send` alone; the reading tools leave the rooms as they are.
unfoldable pub send_tool : Rooms → ℕ → Str → Str → Str → Option Str → Answer
unfolding room send sent_text
send_tool rooms now code from words type =
    in_room rooms code (λ seq. sent_text seq type)
      (send (room rooms code) now from words (or_no_text type) none)

unfoldable pub receive_tool : Rooms → Str → ℕ → Str
unfolding room receive reading_text
receive_tool rooms code after =
    reading_text (text "(no new messages)") (receive (room rooms code) after)

-- Math.max(1, Math.min(55, seconds)) * 1000
abbrev pub wait_ms : ℕ → ℕ
wait_ms seconds = max 1 (min 55 seconds) * 1000

abbrev pub waited_text : Str → Polled (List RoomMessage × ℕ) → Polled Str
unfolding reading_text
waited_text nothing unfinished = unfinished
waited_text nothing rejected = rejected
waited_text nothing (resolved_to found) = resolved_to (reading_text nothing found)

abbrev pub timed_out : Str
timed_out =
    text
      "(timed out — no new messages; call wait_for_message again with this cursor to keep listening)"

-- The poll runs on the room's host, with what that does while a waiter is parked.
unfoldable pub wait_tool :
    (ℕ → ℕ → RoomHost → RoomHost) → ℕ → RoomHost → ℕ → ℕ → Polled Str × RoomHost
unfolding wait waited_text
wait_tool resume fuel host after seconds =
    let waited = wait resume fuel after (wait_ms seconds) host in
    (waited_text timed_out waited.0, waited.1)

abbrev pub no_reply : ℕ → Str
unfolding decimal
no_reply cursor =
    text
      "(sent; no reply yet. Your message IS already posted — do NOT call send_and_wait again or it will re-send. To keep waiting, call wait_for_message with after: "
    ++ (decimal cursor ++ text ".)")

-- What `send_and_wait` writes of the reply.
abbrev pub reply_text : ℕ → Option Str → Polled (List RoomMessage × ℕ) → Polled Str
unfolding sent_text reading_text no_reply
reply_text seq type unfinished = unfinished
reply_text seq type rejected = rejected
reply_text seq type (resolved_to (messages, cursor)) =
    resolved_to
      (sent_text seq type ++ (text "\n\n" ++ reading_text (no_reply cursor) (messages, cursor)))

-- Sends, which wakes the waiters, and waits for what comes after the message of its own.
unfoldable pub send_and_wait_tool :
    (ℕ → ℕ → RoomHost → RoomHost)
    → ℕ
    → Rooms
    → Waiters
    → ℕ
    → Str
    → Str
    → Str
    → Option Str
    → ℕ
    → Polled Str × Rooms
unfolding room send reply_text wait put wake_all
send_and_wait_tool resume fuel rooms ws now code from words type seconds =
    let sent = send (room rooms code) now from words (or_no_text type) none in
    let host : RoomHost = record { cells = sent.1; waiters = wake_all ws; clock = now } in
    let waited = wait resume fuel sent.0 (wait_ms seconds) host in
    (reply_text sent.0 type waited.0, put rooms code waited.1.cells)

abbrev pub paused_text : Str → ℕ → ℕ → Str
unfolding decimal
paused_text note seconds seq =
    text "Posted (#"
    ++ (decimal seq
        ++ (text ") that you're consulting your human. Now END your turn and ask your human: \""
            ++ (note
                ++ (text
                      "\". When they answer, send the reply — the other party expects you back in ~"
                    ++ (decimal (minutes seconds) ++ text " min.")))))

unfoldable pub pause_tool : Rooms → ℕ → Str → Str → Str → ℕ → Answer
unfolding room send paused_text
pause_tool rooms now code from note seconds =
    in_room rooms code (paused_text note seconds)
      (send (room rooms code) now from note (text "awaiting_human") (some seconds))

unfoldable pub status_tool : Rooms → Str → Str
unfolding room status status_text
status_tool rooms code = status_text (status (room rooms code))

unfoldable pub list_kinds_tool : Str
unfolding list_kinds
list_kinds_tool = list_kinds

-- A call of a tool that changes a room, with its clock.
pub data Call : Type 0 where
  open_call : Str → OpenInput → Call
  join_call : Str → Str → Option Str → Call
  send_call : ℕ → Str → Str → Str → Option Str → Call
  send_and_wait_call : ℕ → Str → Str → Str → Option Str → Call
  pause_call : ℕ → Str → Str → Str → ℕ → Call

abbrev pub code_of : Call → Str
code_of (open_call code input) = code
code_of (join_call code name role) = code
code_of (send_call now code from words type) = code
code_of (send_and_wait_call now code from words type) = code
code_of (pause_call now code from note seconds) = code

-- The rooms that a call leaves; what a call that waits does to its own room is done before it waits.
unfoldable pub called : Env → Rooms → Call → Rooms
unfolding open_room_tool join_room_tool send_tool send_and_wait_tool pause_tool
called env rooms (open_call code input) = (open_room_tool env rooms code input).1
called env rooms (join_call code name role) = (join_room_tool rooms code name role).1
called env rooms (send_call now code from words type) = (send_tool rooms now code from words type).1
called env rooms (send_and_wait_call now code from words type) =
    (send_and_wait_tool (λ n ms h. h) 0 rooms no_waiters now code from words type 45).1
called env rooms (pause_call now code from note seconds) =
    (pause_tool rooms now code from note seconds).1

unfoldable pub called_all : Env → Rooms → List Call → Rooms
unfolding called
called_all env rooms [] = rooms
called_all env rooms (c ∷ cs) = called_all env (called env rooms c) cs
