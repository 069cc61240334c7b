-- ===== src/Examples/Rooms.antt =====
-- A room of three served by the toy relay.
use randevu.Base.{str_eq, none, some, List, [], ◌∷◌, Str, text, length, ◌≡◌, refl, arith, ◌⊎◌}
use randevu.Relay.Store.{Store}
use randevu.Relay.Session.{
  Value, MemberInput, MessageInput, KeysInput, JoinInput, InitInput, ok, sha256_hex, init, join,
  post_message, get_messages, post_keys,
}
use randevu.Relay.Session.Room
use randevu.Relay.Session.Room.{Room}
use randevu.Relay.Session.Refines.{Refines}
use randevu.Relay.Session.Posting.{post_message-Refines, get_messages-Refines, tail_of}
use randevu.Relay.Session.Joining.{join-Refines, summary}
use randevu.Relay.Session.Opening.{first_room}
use randevu.Relay.Session.Keying.{post_keys-Refines}
use randevu.Relay.Session.History.{
  Request, joins, posts, shares, run, room_run, room_step, IsSound, session-holds-room,
}
use randevu.Relay.Dispatch.{
  Body, DispatchCtx, Ambient, reply, rethrown, error_body, member_only, dispatch_session,
}
use randevu.Relay.Dispatch.Guarded.{IsSigned, dispatch_session-IsSigned}
use randevu.Relay.Dispatch.Steps.{serve, serve-holds-room, HoldsRoom}
use randevu.Examples.Toy.{toy}

abbrev ana : MemberInput
ana = record { fingerprint = text "ana"; identity_pub = 1001 ∷ 48 ∷ []; kx_pub = text "k" }

abbrev bob : MemberInput
bob = record { fingerprint = text "bob"; identity_pub = 1002 ∷ 48 ∷ []; kx_pub = text "k" }

abbrev opening : InitInput
opening = record { session_id = text "s"; max_members = 3; creator = ana }

abbrev pub token : Str
token = text "t"

abbrev bob_joins : JoinInput
bob_joins = record { join_token = token; member = bob }

abbrev greeting : MessageInput
greeting = record {
  epoch = 1;
  sender_id = text "bob";
  ciphertext = text "c";
  nonce = text "n";
  signature = text "x";
  type = text "message";
  prev_hash = none;
  ref = none;
}

abbrev sharing : KeysInput
sharing = record {
  sender_id = text "ana";
  epoch = 1;
  key_commitment = text "c";
  signature = text "x";
  wraps = record { recipient_id = text "bob"; wrapped_key = text "w" } ∷ [];
}

abbrev requests : List Request
requests = joins bob_joins ∷ posts greeting ∷ shares sharing ∷ posts greeting ∷ []

session-holds-room_example :
    Refines
      (run toy (init toy [] opening token).1 requests)
      (room_run toy (first_room toy opening token) requests)
    × IsSound (room_run toy (first_room toy opening token) requests)
session-holds-room_example =
    session-holds-room toy opening token requests (omega arith) (omega arith)

abbrev pub store : Store Value
store = run toy (init toy [] opening token).1 requests

abbrev pub room : Room
room = room_run toy (first_room toy opening token) requests

pub held : Refines store room
held = (session-holds-room toy opening token requests (omega arith) (omega arith)).0

pub room_log : length room.log ≡ 2
unfolding room_run room_step first_room Room.opened Room.enter Room.post Room.distribute
    Room.admitted Room.share Room.find_member sha256_hex str_eq
room_log = refl

get_messages-Refines_example : get_messages store 1 ≡ (ok (tail_of room 1), store)
get_messages-Refines_example = get_messages-Refines store room held (omega (arith, room_log)) 1

post_message-Refines_example :
    ((post_message store greeting).0 ≡ (Room.post room greeting).0)
    × Refines (post_message store greeting).1 (Room.post room greeting).1
post_message-Refines_example =
    post_message-Refines store room held greeting (omega (arith, room_log))

abbrev cyd_joins : JoinInput
cyd_joins = record {
  join_token = token;
  member = record { fingerprint = text "cyd"; identity_pub = 1003 ∷ 48 ∷ []; kx_pub = text "k" };
}

join-Refines_example :
    (summary (join toy store cyd_joins).0
      ≡ (Room.enter room (sha256_hex toy token) cyd_joins.member).0)
    × Refines
        (join toy store cyd_joins).1
        (Room.enter room (sha256_hex toy token) cyd_joins.member).1
join-Refines_example = join-Refines toy store room cyd_joins held

post_keys-Refines_example :
    ((post_keys store sharing).0 ≡ (Room.distribute room sharing).0)
    × Refines (post_keys store sharing).1 (Room.distribute room sharing).1
post_keys-Refines_example = post_keys-Refines store room sharing held

-- A signed and an unsigned post, an hour apart.
abbrev ambient : Ambient
ambient = record { now = 1000000; number = λ s. some 999000; join_token = token }

abbrev body : Body
body = record {
  max_members = 2;
  creator = ana;
  as_join = bob_joins;
  as_message = greeting;
  as_keys = sharing;
}

abbrev posting : DispatchCtx
posting = record {
  session_id = text "s";
  method = text "POST";
  path = text "/messages";
  after = 0;
  epoch = 0;
  member_param = [];
  body = body;
  member = some (text "bob");
  timestamp = some (text "999000");
  signature = some (1002 ∷ 48 ∷ []);
}

abbrev joining : DispatchCtx
joining = record posting { path = text "/join"; member = none }

dispatch_session-IsSigned_example :
    (dispatch_session toy ambient store posting ≡ (reply 401 (error_body "unauthenticated"), store))
    ⊎ (dispatch_session toy ambient store posting ≡ (rethrown, store))
    ⊎ IsSigned toy ambient store posting
unfolding member_only str_eq
dispatch_session-IsSigned_example = dispatch_session-IsSigned toy ambient store posting refl

serve-holds-room_example :
    HoldsRoom 2
      (serve toy (init toy [] opening token).1 ((ambient, joining) ∷ (ambient, posting) ∷ []))
serve-holds-room_example =
    serve-holds-room toy opening token ((ambient, joining) ∷ (ambient, posting) ∷ []) (omega arith)
      (omega arith)
