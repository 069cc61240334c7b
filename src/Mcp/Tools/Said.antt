-- ===== src/Mcp/Tools/Said.antt =====
-- The hosted rooms stay apart: what is received in a room is what was said under its code.
use randevu.Base.{
  ℕ, ◌+◌, ◌<◌, ◌≤◌, true, Option, none, some, List, [], ◌∷◌, ◌++◌, length, length-append, drop, Str,
  text, str_eq, str_eq_iff, ◌≡◌, arith, Bool-cases, inl, inr, if◌then◌else◌, append_assoc,
  append-nil,
}
use randevu.Core.Kinds.{or_no_text}
use randevu.Mcp.Room.Log.{HoldsLog, next_message, room_limit, send-HoldsLog}
use randevu.Mcp.Room.Reading.{receive-HoldsLog}
use randevu.Mcp.Room.{Cells, RoomMessage, is_true, join, join_open, open_room, send, receive}
use randevu.Mcp.Tools.Apart.{acted, called-put, room-put}
use randevu.Mcp.Invitations.{Env}
use randevu.Mcp.Tools.{
  Rooms, room, Call, open_call, join_call, send_call, send_and_wait_call, pause_call, code_of,
  called, called_all,
}

-- The message that a call says, if any, after so many others.
abbrev pub said_by : ℕ → Call → List RoomMessage
said_by n (open_call code input) = []
said_by n (join_call code name role) = []
said_by n (send_call now code from words type) =
    next_message n now from words (or_no_text type) none ∷ []
said_by n (send_and_wait_call now code from words type) =
    next_message n now from words (or_no_text type) none ∷ []
said_by n (pause_call now code from note seconds) =
    next_message n now from note (text "awaiting_human") (some seconds) ∷ []

abbrev pub said_in : Str → ℕ → Call → List RoomMessage
said_in code n call = if str_eq (code_of call) code then said_by n call else []

-- What a row of calls says in a room, whose log is so long before.
unfoldable pub said : Str → ℕ → List Call → List RoomMessage
unfolding said_in
said code n [] = []
said code n (call ∷ calls) =
    let here = said_in code n call in here ++ said code (n + length here) calls

length-said_in : (code : Str) (n : ℕ) (call : Call) → length (said_in code n call) ≤ 1
length-said_in code n call = elim (Bool-cases (str_eq (code_of call) code)) [
  | inl same ↦ rw same (one call)
  | inr other ↦ rw other (omega arith)
]
  where
    one : (call : Call) → length (said_by n call) ≤ 1
    one (open_call code input) = omega arith
    one (join_call code name role) = omega arith
    one (send_call now code from words type) = omega arith
    one (send_and_wait_call now code from words type) = omega arith
    one (pause_call now code from note seconds) = omega arith

length-said : (code : Str) (n : ℕ) (calls : List Call) → length (said code n calls) ≤ length calls
unfolding said
length-said code n [] = omega arith
length-said code n (call ∷ calls) =
    let here = said_in code n call in
    omega (
      arith,
      length-append here (said code (n + length here) calls),
      length-said_in code n call,
      length-said code (n + length here) calls,
    )

-- An open room, and its log.
pub record Holds (c : Cells) (log : List RoomMessage) : Type 0 where
  pub is_open : is_true c.is_open ≡ true
  pub holds : HoldsLog c log

join_open-Holds :
    (c : Cells) (log : List RoomMessage) (name role : Str)
    → Holds c log
    → Holds (join_open c name role).1 log
unfolding join_open
join_open-Holds c log name role h = record {
  is_open = h.is_open;
  holds = record {
    seq_at = h.holds.seq_at;
    listed = h.holds.listed;
    numbered = h.holds.numbered;
    log_end = h.holds.log_end;
  };
}

join-Holds :
    (c : Cells) (log : List RoomMessage) (name role : Str)
    → Holds c log
    → Holds (join c name role).1 log
unfolding join
join-Holds c log name role h = rw h.is_open (join_open-Holds c log name role h)

open_room-Holds :
    (c : Cells) (log : List RoomMessage) (name kind role brief : Str) (custom : List (Str × Str))
    → Holds c log
    → Holds (open_room c name kind role brief custom).1 log
unfolding open_room join
open_room-Holds c log name kind role brief custom h =
    rw h.is_open (join_open-Holds c log name role h)

send-Holds :
    (c : Cells) (log : List RoomMessage) (now : ℕ) (from words type : Str) (retry_after : Option ℕ)
    → Holds c log
    → length log + 1 < room_limit
    → Holds
        (send c now from words type retry_after).1
        (log ++ next_message (length log) now from words type retry_after ∷ [])
unfolding send
send-Holds c log now from words type retry_after h room = record {
  is_open = h.is_open;
  holds = (send-HoldsLog c log now from words type retry_after h.holds room).1;
}

acted-Holds :
    (call : Call) (c : Cells) (log : List RoomMessage)
    → Holds c log
    → length log + 1 < room_limit
    → Holds (acted call c) (log ++ said_by (length log) call)
unfolding acted
acted-Holds (open_call code input) c log h room = rw append-nil (open_room-Holds c log _ _ _ _ _ h)
acted-Holds (join_call code name role) c log h room = rw append-nil (join-Holds c log _ _ h)
acted-Holds (send_call now code from words type) c log h room =
    send-Holds c log now from words (or_no_text type) none h room
acted-Holds (send_and_wait_call now code from words type) c log h room =
    send-Holds c log now from words (or_no_text type) none h room
acted-Holds (pause_call now code from note seconds) c log h room =
    send-Holds c log now from note (text "awaiting_human") (some seconds) h room

called-Holds :
    (env : Env) (rooms : Rooms) (code : Str) (call : Call) (log : List RoomMessage)
    → Holds (room rooms code) log
    → length log + 1 < room_limit
    → Holds (room (called env rooms call) code) (log ++ said_in code (length log) call)
called-Holds env rooms code call log h small =
    rw
      (
        called-put env rooms call,
        room-put rooms (code_of call) code (acted call (room rooms (code_of call))),
      )
      (elim (Bool-cases (str_eq (code_of call) code)) [
        | inl same ↦
            let e : code_of call ≡ code = (str_eq_iff (code_of call) code).0 same in
            rw (same, e) (acted-Holds call (room rooms code) log h small)
        | inr other ↦ rw (other, append-nil log) h
      ])

called_all-Holds :
    (env : Env) (rooms : Rooms) (code : Str) (calls : List Call) (log : List RoomMessage)
    → Holds (room rooms code) log
    → length log + length calls < room_limit
    → Holds (room (called_all env rooms calls) code) (log ++ said code (length log) calls)
unfolding called_all said
called_all-Holds env rooms code [] log h small = rw append-nil h
called_all-Holds env rooms code (call ∷ calls) log h small =
    let here = said_in code (length log) call in
    let grown : length (log ++ here) ≡ length log + length here = length-append log here in
    rw (← append_assoc log here (said code (length log + length here) calls), ← grown)
      (called_all-Holds env (called env rooms call) code calls (log ++ here)
        (called-Holds env rooms code call log h (omega arith))
        (omega (arith, grown, length-said_in code (length log) call)))

-- In an open room, after any row of calls of the tools in whatever rooms, `receive` gives what was said
-- under the room's code after the cursor, all of it, in order, and nothing else, while the room has
-- fewer than 10 ^ 9 messages.
pub receive-said :
    (env : Env) (rooms : Rooms) (code : Str) (calls : List Call) (log : List RoomMessage)
    (after : ℕ)
    → Holds (room rooms code) log
    → length log + length calls < room_limit
    → receive (room (called_all env rooms calls) code) after ≡ (
      drop after (log ++ said code (length log) calls),
      after + length (drop after (log ++ said code (length log) calls)),
    )
receive-said env rooms code calls log after h small =
    receive-HoldsLog (room (called_all env rooms calls) code) (log ++ said code (length log) calls)
      after (called_all-Holds env rooms code calls log h small).holds
      (omega (
        arith,
        length-append log (said code (length log) calls),
        length-said code (length log) calls,
      ))
