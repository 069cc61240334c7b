-- ===== src/Examples/Joint.antt =====
-- A member that pulls from a session with two messages.
use randevu.Base.{[], length, text, ◌≡◌, refl, arith}
use randevu.Local.Action.{done}
use randevu.Local.Folding.{pull}
use randevu.Local.Folding.Head.{IsFolded}
use randevu.Local.Folding.Session.{session_api, pull-room}
use randevu.Examples.Toy.{toy}
use randevu.Examples.Rooms.{store, room, held, room_log, token}
use randevu.Examples.Locals.{bob, newcomer, starts}

pull-room_example :
    IsFolded toy
      (text "s")
      (pull toy (session_api toy (text "s") token) (record { me = bob; world = store })).1.me
    × ((pull toy (session_api toy (text "s") token) (record { me = bob; world = store })).0
          ≡ done tt
        → (pull toy
            (session_api toy (text "s") token)
            (record { me = bob; world = store })).1.me.fetched_seq
          ≡ length room.log)
unfolding bob newcomer
pull-room_example =
    pull-room toy (text "s") token store room 115 [] bob held (omega (arith, room_log)) refl
      (omega arith) starts
