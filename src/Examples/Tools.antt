-- ===== src/Examples/Tools.antt =====
-- Tools of the hosted server called in two rooms.
use randevu.Base.{none, some, true, false, List, [], ◌∷◌, text, str_eq, ◌≡◌, refl, arith}
use randevu.Mcp.Room.{Cells, receive}
use randevu.Mcp.Room.Log.{next_message}
use randevu.Mcp.Invitations.{Env}
use randevu.Mcp.Tools.{Rooms, room, Call, send_call, pause_call, called_all}
use randevu.Mcp.Tools.Said.{Holds, said, receive-said}
use randevu.Relay.Store.Listing.{list-nil}
use randevu.Relay.Store.{get}

abbrev env : Env
env = record {
  public_url = none;
  sends_mail = false;
  deliver = λ to mail. none;
  encode = λ s. some s;
}

abbrev fresh_room : Cells
fresh_room = record {
  is_open = some true;
  seq = some 0;
  members = some [];
  roles = some [];
  kind = some (text "chat");
  brief = some [];
  custom_roles = some [];
  messages = [];
}

abbrev rooms : Rooms
rooms = (text "a", fresh_room) ∷ (text "b", fresh_room) ∷ []

fresh-Holds : Holds (room rooms (text "a")) []
unfolding room get str_eq
fresh-Holds = record {
  is_open = refl;
  holds = record {
    seq_at = refl;
    listed = list-nil (text "msg:") none;
    numbered = tt;
    log_end = λ n e. unfold get in refl;
  };
}

abbrev calls : List Call
calls =
    send_call 1 (text "a") (text "ana") (text "hi") none
    ∷ send_call 2 (text "b") (text "eve") (text "hm") none
    ∷ pause_call 3 (text "a") (text "bob") (text "wait") 60
    ∷ []

receive-said_example :
    receive (room (called_all env rooms calls) (text "a")) 1
    ≡ (next_message 1 3 (text "bob") (text "wait") (text "awaiting_human") (some 60) ∷ [], 2)
unfolding said str_eq
receive-said_example = receive-said env rooms (text "a") calls [] 1 fresh-Holds (omega arith)
