-- ===== src/Relay/Session/History.antt =====
-- A session over a whole history of requests, refused ones included.
use randevu.Base.{
  ◌+◌, ◌<◌, ◌≤◌, Bool, true, false, not, is_some, List, [], ◌∷◌, ◌++◌, length, Str, str_eq,
  str_eq_refl, ◌≡◌, refl, arith, if◌then◌else◌, length-append,
}
use randevu.Noble.{Noble}
use randevu.Relay.Store.{Store}
use randevu.Relay.Keys.Laws.{seq_limit}
use randevu.Relay.Session.{sha256_hex, join, post_message, post_keys, init}
use randevu.Relay.Session.Data.{
  Member, MemberInput, MessageInput, Value, JoinInput, KeysInput, Wrap, InitInput,
}
use randevu.Relay.Session.Room
use randevu.Relay.Session.Room.{Room, find_member}
use randevu.Relay.Session.Refines.{Refines}
use randevu.Relay.Session.Posting.{post_message-Refines}
use randevu.Relay.Session.Joining.{join-Refines}
use randevu.Relay.Session.Opening.{init-Refines, first_room}
use randevu.Relay.Session.Keying.{post_keys-Refines}

-- The calls that change a session.
pub data Request : Type 0 where
  joins : JoinInput → Request
  posts : MessageInput → Request
  shares : KeysInput → Request

module _ (noble : Noble) where
  -- The store that a request leaves.
  unfoldable pub step : Store Value → Request → Store Value
  step st (joins i) = (join noble st i).1
  step st (posts i) = (post_message st i).1
  step st (shares i) = (post_keys st i).1

  unfoldable pub run : Store Value → List Request → Store Value
  unfolding step
  run st [] = st
  run st (q ∷ qs) = run (step st q) qs

  unfoldable pub room_step : Room → Request → Room
  room_step r (joins i) = (Room.enter r (sha256_hex noble i.join_token) i.member).1
  room_step r (posts i) = (Room.post r i).1
  room_step r (shares i) = (Room.distribute r i).1

  unfoldable pub room_run : Room → List Request → Room
  unfolding room_step
  room_run r [] = r
  room_run r (q ∷ qs) = room_run (room_step r q) qs

log-share : (input : KeysInput) (ws : List Wrap) (r : Room) → (Room.share r input ws).log ≡ r.log
unfolding Room.share
log-share input [] r = refl
log-share input (w ∷ ws) r = log-share input ws _

members-share :
    (input : KeysInput) (ws : List Wrap) (r : Room) → (Room.share r input ws).members ≡ r.members
unfolding Room.share
members-share input [] r = refl
members-share input (w ∷ ws) r = members-share input ws _

meta-share : (input : KeysInput) (ws : List Wrap) (r : Room) → (Room.share r input ws).meta ≡ r.meta
unfolding Room.share
meta-share input [] r = refl
meta-share input (w ∷ ws) r = meta-share input ws _

-- A room as the calls keep it.
pub record IsSound (r : Room) : Type 0 where
  -- one epoch for each member admitted
  pub epochs : r.meta.epoch + 1 ≡ length r.members
  pub bounded : length r.members ≤ r.meta.max_members
  -- a room that is not locked has a place left
  pub room_left : r.meta.locked ≡ false → length r.members < r.meta.max_members
  pub full : r.meta.locked ≡ true → length r.members ≡ r.meta.max_members
  -- the key-holder is a member
  pub holder : is_some (find_member r.meta.creator_id r.members) ≡ true

module _ (noble : Noble) where
  pub length-room_step :
      (r : Room) (q : Request) → length (room_step noble r q).log ≤ length r.log + 1
  unfolding room_step Room.enter Room.post Room.distribute Room.admitted
  length-room_step r (joins i) = ground arith
  length-room_step r (posts i) =
      ground (arith, length-append r.log (record { input = i; seq = length r.log + 1 } ∷ []))
  length-room_step r (shares i) = ground (arith, log-share i i.wraps r)

  pub step-Refines :
      (st : Store Value) (r : Room) (q : Request)
      → length r.log + 1 < seq_limit
      → Refines st r
      → Refines (step noble st q) (room_step noble r q)
  unfolding step room_step
  step-Refines st r (joins i) room h = (join-Refines noble st r i h).1
  step-Refines st r (posts i) room h = (post_message-Refines st r h i room).1
  step-Refines st r (shares i) room h = (post_keys-Refines st r i h).1

  run-Refines :
      (qs : List Request) (st : Store Value) (r : Room)
      → length r.log + length qs < seq_limit
      → Refines st r
      → Refines (run noble st qs) (room_run noble r qs)
  unfolding run room_run
  run-Refines [] st r room h = h
  run-Refines (q ∷ qs) st r room h =
      run-Refines qs (step noble st q) (room_step noble r q) (omega (arith, length-room_step r q))
        (step-Refines st r q (omega arith) h)

still_member :
    (fp : Str) (ms : List Member) (x : Member)
    → is_some (find_member fp ms) ≡ true
    → is_some (find_member fp (ms ++ x ∷ [])) ≡ true
unfolding find_member
still_member fp [] x h = cc
still_member fp (m ∷ ms) x h = ground (arith, still_member fp ms x)

admitted-IsSound :
    (r : Room) (input : MemberInput)
    → r.meta.locked ≡ false
    → IsSound r
    → IsSound (Room.admitted r input)
unfolding Room.admitted
admitted-IsSound r input open' s =
    let new : Member = record { input = input; joined_seq = length r.log } in
    let n : length (r.members ++ new ∷ []) ≡ length r.members + 1 =
      length-append r.members (new ∷ []) in
    record {
      epochs = omega (arith, s.epochs, n);
      bounded = omega (arith, s.room_left open', n);
      room_left = ground (arith, n, s.room_left open');
      full = ground (arith, n, s.room_left open');
      holder = still_member r.meta.creator_id r.members new s.holder;
    }

-- The room that a call leaves is sound.
abbrev LeavesSound {ℓ} : {A : Type ℓ} → A × Room → Type 0
LeavesSound p = IsSound p.1

guarded {ℓ} :
    {A : Type ℓ} (b : Bool) (x y : A × Room)
    → LeavesSound x
    → (b ≡ false → LeavesSound y)
    → LeavesSound (if b then x else y)
guarded true x y h k = h
guarded false x y h k = k refl

guarded_not {ℓ} :
    {A : Type ℓ} (b : Bool) (x y : A × Room)
    → LeavesSound x
    → LeavesSound y
    → LeavesSound (if b then x else y)
guarded_not true x y h k = h
guarded_not false x y h k = k

enter-IsSound :
    (r : Room) (hash : Str) (input : MemberInput)
    → IsSound r
    → LeavesSound (Room.enter r hash input)
unfolding Room.enter
enter-IsSound r hash input s = guarded r.meta.locked _ _ s λ e.
    guarded (not (r.tokens hash)) _ _ s λ _.
      guarded (is_some (find_member input.fingerprint r.members)) _ _ s
        λ _. admitted-IsSound r input e s

share-IsSound :
    (r : Room) (input : KeysInput) (ws : List Wrap) → IsSound r → IsSound (Room.share r input ws)
share-IsSound r input ws s = record {
  epochs = rw (meta-share input ws r, members-share input ws r) s.epochs;
  bounded = rw (meta-share input ws r, members-share input ws r) s.bounded;
  room_left = rw (meta-share input ws r, members-share input ws r) s.room_left;
  full = rw (meta-share input ws r, members-share input ws r) s.full;
  holder = rw (meta-share input ws r, members-share input ws r) s.holder;
}

post-IsSound : (r : Room) (input : MessageInput) → IsSound r → LeavesSound (Room.post r input)
unfolding Room.post
post-IsSound r input s =
    guarded_not (is_some (find_member input.sender_id r.members)) _ _
      (record {
        epochs = s.epochs;
        bounded = s.bounded;
        room_left = s.room_left;
        full = s.full;
        holder = s.holder;
      })
      s

distribute-IsSound :
    (r : Room) (input : KeysInput) → IsSound r → LeavesSound (Room.distribute r input)
unfolding Room.distribute
distribute-IsSound r input s =
    guarded (not (is_some (find_member input.sender_id r.members))) _ _ s λ _.
      guarded (not (str_eq input.sender_id r.meta.creator_id)) _ _ s
        λ _. share-IsSound r input input.wraps s

module _ (noble : Noble) where
  pub room_step-IsSound : (r : Room) (q : Request) → IsSound r → IsSound (room_step noble r q)
  unfolding room_step
  room_step-IsSound r (joins i) s = enter-IsSound r (sha256_hex noble i.join_token) i.member s
  room_step-IsSound r (posts i) s = post-IsSound r i s
  room_step-IsSound r (shares i) s = distribute-IsSound r i s

  room_run-IsSound : (qs : List Request) (r : Room) → IsSound r → IsSound (room_run noble r qs)
  unfolding room_run
  room_run-IsSound [] r s = s
  room_run-IsSound (q ∷ qs) r s =
      room_run-IsSound qs (room_step noble r q) (room_step-IsSound r q s)

pub first_room-IsSound :
    (noble : Noble) (input : InitInput) (join_token : Str)
    → 2 ≤ input.max_members
    → IsSound (first_room noble input join_token)
unfolding first_room Room.opened find_member
first_room-IsSound noble input join_token h = record {
  epochs = omega arith;
  bounded = omega arith;
  room_left = λ e. omega arith;
  full = λ e. cc;
  holder = rw (str_eq_refl input.creator.fingerprint);
}

pub log-first_room :
    (noble : Noble) (input : InitInput) (join_token : Str)
    → (first_room noble input join_token).log ≡ []
unfolding first_room Room.opened
log-first_room noble input join_token = refl

-- A session opened by `init` with two places at least and served any requests, fewer than 10 ^ 12, holds a room: the room
-- that the same requests give, with its members bounded, its lock set exactly when it is full, one
-- epoch for each admission, and the key-holder a member.
pub session-holds-room :
    (noble : Noble) (input : InitInput) (join_token : Str) (qs : List Request)
    → 2 ≤ input.max_members
    → length qs < seq_limit
    → Refines
        (run noble (init noble [] input join_token).1 qs)
        (room_run noble (first_room noble input join_token) qs)
      × IsSound (room_run noble (first_room noble input join_token) qs)
session-holds-room noble input join_token qs h k = (
  run-Refines noble qs _ _ (rw (log-first_room noble input join_token) (omega arith))
      (init-Refines noble input join_token h),
  room_run-IsSound noble qs _ (first_room-IsSound noble input join_token h),
)
