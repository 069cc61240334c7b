-- ===== src/Mcp/Room/Reading.antt =====
-- Receiving reads the tail of the log.
use randevu.Base.{
  ℕ, ◌+◌, ◌<◌, ◌⊎◌, Bool, true, false, none, some, List, length, drop, ltb, ◌≡◌, refl, ap₂, inl,
  inr, if◌then◌else◌,
}
use randevu.Base.Numbered.{tail_lem}
use randevu.Mcp.Room.Log.{HoldsLog, keyed, msg_prefix, room_limit}
use randevu.Mcp.Room.{Cells, RoomMessage, msg_key, newer, sort_messages, last_seq, receive}
use randevu.Relay.Store.Ranged.{newer_by-list}

start_cases :
    (after : ℕ) (b : Bool)
    → ((if b then some (msg_key (after + 1)) else none) ≡ none)
      ⊎ ((if b then some (msg_key (after + 1)) else none) ≡ some (msg_key (after + 1)))
start_cases after true = inr refl
start_cases after false = inl refl

-- `receive` gives the messages after the cursor, all of them, in order, and the last one's number as
-- the next cursor.
pub receive-HoldsLog :
    (c : Cells) (log : List RoomMessage) (after : ℕ)
    → HoldsLog c log
    → length log < room_limit
    → receive c after ≡ (drop after log, after + length (drop after log))
unfolding receive newer sort_messages last_seq
receive-HoldsLog c log after h room =
    let (found, cursor) =
      tail_lem (λ m. m.seq) after log _ h.numbered
        (newer_by-list keyed c.messages msg_prefix log after _ h.listed h.numbered room
          (start_cases after (ltb 0 after))) in
    ap₂ (λ ms n. (ms, n)) found cursor
