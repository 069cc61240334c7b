-- ===== src/Examples/Seats.antt =====
-- A member that joins a room by a link, and one that waits, with the toy functions.
use randevu.Base.{
  ℕ, ◌+◌, some, [], ◌∷◌, ◌++◌, Str, text, str_eq, trim, is_space, split_by, join_by, ◌≡◌, refl,
  arith, true,
}
use randevu.Base.Outcome.{returns}
use randevu.Core.Crypto.{fingerprint}
use randevu.Core.Invite.{encode_invite}
use randevu.Core.Invite.Link.{JoinLink, parse_join_link}
use randevu.Core.Invite.Pattern.{scheme}
use randevu.Examples.Joins.{toy_uri}
use randevu.Examples.Locals.{bob, newcomer, ana_key, ana_listed}
use randevu.Examples.Toy.{toy}
use randevu.Http.Client.{without_slashes}
use randevu.Local.Action.{Attempt, done, fails, foreign}
use randevu.Local.Api.{RelayApi, Party}
use randevu.Local.Data.{Randoms}
use randevu.Local.Folding.{receive}
use randevu.Local.Keys.{cache, cache_into, join_session, ensure_keys, refresh_group_key}
use randevu.Local.Rooming.{Client, Clock, Seat, JoinedRoom, join_room, set_relay, role_for}
use randevu.Local.Rooming.Joined.{after_link, join_room-IsPinned}
use randevu.Local.Rooming.Pinned.{IsPinned}
use randevu.Local.Waiting.{wait_for_message}
use randevu.Local.Waiting.Ending.{IsOver, wait_for_message-IsOver}
use randevu.Local.Waiting.Forward.{IsTicking}
use randevu.Relay.Session.Data.{MemberInput}

abbrev holder_id : Str
holder_id = toy.bytes_to_hex ana_key

abbrev holder : MemberInput
holder = record { fingerprint = holder_id; identity_pub = toy.bytes_to_hex ana_key; kx_pub = [] }

-- A relay that lists one member, has no messages and keeps a clock.
abbrev quiet : RelayApi ℕ
quiet = record {
  create_session = λ n m w. (fails foreign, w);
  join_session = λ id j w. (
    done (record {
      members = record { input = holder; joined_seq = 0 } ∷ [];
      epoch = 1;
      locked = true;
    }),
    w,
  );
  post_message = λ id m w. (fails foreign, w);
  get_messages = λ id after w. (done [], w);
  post_keys = λ id k w. (fails foreign, w);
  get_key = λ id e m w. (fails foreign, w);
  status = λ id w. (
    done (record {
      session_id = id;
      creator_id = text "ana";
      locked = true;
      epoch = 1;
      members = record { input = ana_listed; joined_seq = 0 } ∷ [];
      last_seq = 0;
    }),
    w,
  );
}

-- Its long poll answers at once, with nothing, after two ticks.
abbrev idle : Client ℕ
idle = record {
  api = quiet;
  wait = λ id after seconds w. (done (record { messages = []; cursor = after }), w + 2);
}

abbrev ticks : Clock ℕ
ticks = record { now = λ w. w; sleep = λ n w. w + n }

idle-IsTicking : IsTicking ticks idle
idle-IsTicking = record {
  status = λ id w. omega arith;
  get_key = λ id e m w. omega arith;
  post_keys = λ id k w. omega arith;
  get_messages = λ id a w. omega arith;
  wait = λ id a n w. omega arith;
  sleep = λ n w. omega arith;
}

abbrev no_randoms : ℕ → Randoms
no_randoms n = record { group_key = []; ephemeral = λ k. []; nonce = [] }

abbrev waiting : Party ℕ
unfolding bob
waiting = record { me = bob; world = 10 }

wait_for_message-IsOver_example :
    IsOver ticks 15 (wait_for_message ticks toy idle no_randoms 6 5 waiting)
unfolding waiting
wait_for_message-IsOver_example =
    wait_for_message-IsOver ticks idle idle-IsTicking toy no_randoms 6 5 waiting (omega arith)

-- After three polls the deadline has passed.
waited : (wait_for_message ticks toy idle no_randoms 6 5 waiting).0 ≡ done (some [])
unfolding wait_for_message waiting bob newcomer receive ensure_keys cache refresh_group_key
waited = refl

abbrev link : Str
link = text " http://r/j/s#" ++ (holder_id ++ text ".t.intro ")

abbrev linked_room : JoinLink
linked_room = record {
  relay_url = text "http://r";
  invite = record { session_id = text "s"; fingerprint = holder_id; join_token = text "t" };
  kind = some (text "intro");
}

read_link : parse_join_link toy_uri (trim link) ≡ returns linked_room
unfolding parse_join_link trim split_by is_space join_by
read_link = refl

abbrev seat : Seat ℕ
unfolding waiting
seat = record { party = waiting; endpoint = text "http://q"; kind = []; my_role = [] }

abbrev run_join : Attempt JoinedRoom × Seat ℕ
unfolding seat join_room
run_join = join_room toy toy_uri (λ e. idle) link [] [] seat

abbrev entered : Attempt JoinedRoom → JoinedRoom
entered (done r) = r
entered (fails e) = record { session_id = []; kind = []; role = []; context = []; members = [] }

abbrev joined_room : JoinedRoom
unfolding run_join entered
joined_room = entered run_join.0

joined : join_room toy toy_uri (λ e. idle) link [] [] seat ≡ (done joined_room, run_join.1)
unfolding join_room seat run_join joined_room entered trim parse_join_link split_by str_eq join_by
    set_relay join_session cache cache_into role_for encode_invite fingerprint
joined = refl

join_room-IsPinned_example :
    IsPinned toy quiet seat.party run_join.1.party linked_room.invite
    × (joined_room.session_id ≡ text "s")
    × (joined_room.kind ≡ text "intro")
    × (run_join.1.endpoint ≡ text "http://r")
unfolding scheme trim is_space seat after_link without_slashes str_eq
join_room-IsPinned_example =
    join_room-IsPinned toy toy_uri (λ e. idle) link [] [] linked_room seat run_join.1 joined_room
      refl read_link refl joined
