-- ===== src/Mcp/Tools/Apart.antt =====
-- A tool that changes a room changes no other.
use randevu.Base.{
  Option, none, some, [], Str, text, str_eq, ◌≡◌, refl, Bool-cases, inl, inr, if◌then◌else◌,
}
use randevu.Base.Outcome.{Outcome, returns, throws}
use randevu.Core.Kinds.{or_no_text}
use randevu.Mcp.Room.{Cells, JoinResult, or_else, join, open_room, send}
use randevu.Mcp.Invitations.{Env, OpenInput, invite_link}
use randevu.Core.Waiters.{long_poll, poll_loop}
use randevu.Mcp.Room.{wait}
use randevu.Mcp.Tools.{
  Rooms, room, opened, join_answer, open_room_tool, join_room_tool, send_tool, send_and_wait_tool,
  pause_tool, Call, open_call, join_call, send_call, send_and_wait_call, pause_call, code_of,
  called,
}
use randevu.Relay.Store.Laws.{get-put}
use randevu.Relay.Store.{put}

-- What a call does to the cells of the room that it names.
unfoldable pub acted : Call → Cells → Cells
acted (open_call code input) c =
    (open_room c input.name (or_no_text input.kind) (or_no_text input.role) (or_no_text input.brief)
      (or_else input.roles [])).1
acted (join_call code name role) c = (join c name (or_no_text role)).1
acted (send_call now code from words type) c = (send c now from words (or_no_text type) none).1
acted (send_and_wait_call now code from words type) c =
    (send c now from words (or_no_text type) none).1
acted (pause_call now code from note seconds) c =
    (send c now from note (text "awaiting_human") (some seconds)).1

opened-put :
    (env : Env) (rooms : Rooms) (code : Str) (input : OpenInput) (r : Outcome JoinResult × Cells)
    → (opened env rooms code input r).1 ≡ put rooms code r.1
unfolding opened
opened-put env rooms code input (throws e, c) = refl
opened-put env rooms code input (returns r, c) = linked (invite_link env code input.purpose) refl
  where
    linked :
        (o : Option Str)
        → invite_link env code input.purpose ≡ o
        → (opened env rooms code input (returns r, c)).1 ≡ put rooms code c
    linked none e = rw (opened, e) refl
    linked (some link) e = rw (opened, e) refl

join_answer-put :
    (code name : Str) (rooms : Rooms) (r : Outcome JoinResult × Cells)
    → (join_answer code name rooms r).1 ≡ put rooms code r.1
unfolding join_answer
join_answer-put code name rooms (returns r, c) = refl
join_answer-put code name rooms (throws e, c) = refl

pub called-put :
    (env : Env) (rooms : Rooms) (call : Call)
    → called env rooms call ≡ put rooms (code_of call) (acted call (room rooms (code_of call)))
unfolding called acted open_room_tool join_room_tool send_tool send_and_wait_tool pause_tool wait
    long_poll poll_loop
called-put env rooms (open_call code input) = opened-put env rooms code input _
called-put env rooms (join_call code name role) = join_answer-put code name rooms _
called-put env rooms (send_call now code from words type) = refl
called-put env rooms (send_and_wait_call now code from words type) = refl
called-put env rooms (pause_call now code from note seconds) = refl

pub room-put :
    (rooms : Rooms) (k code : Str) (c : Cells)
    → room (put rooms k c) code ≡ (if str_eq k code then c else room rooms code)
unfolding room
room-put rooms k code c = elim (Bool-cases (str_eq k code)) [
  | inl same ↦ rw (get-put rooms k code c, same) refl
  | inr other ↦ rw (get-put rooms k code c, other) refl
]
