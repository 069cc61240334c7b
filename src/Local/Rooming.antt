-- ===== src/Local/Rooming.antt =====
-- The room layer of `RandevuLocal` (packages/local/src/server.ts): `openRoom`, `joinRoom`,
-- `waitForMessage` and `sendAndWait`.
pub mod Pinned
pub mod Joined
use randevu.Base.{
  ℕ, zero, suc, ◌+◌, ◌-◌, ◌*◌, ◌/◌, min, Bool, true, false, not, ◌&&◌, Option, none, some, is_some,
  List, [], ◌∷◌, map, Str, text, trim, str_eq, leb, ◌==◌, if◌then◌else◌,
}
use randevu.Core.Invite.Link.{JoinLink, Uri, encode_join_link, parse_join_link}
use randevu.Core.Invite.Pattern.{scheme}
use randevu.Core.Invite.{encode_invite, is_empty}
use randevu.Core.Kinds.{role_by_order, room_context, pos, or_no_text}
use randevu.Http.Client.{without_slashes}
use randevu.Local.Action.{
  Attempt, done, fails, Fault, relay_error, Action, then, ◌>>=◌, ◌>>◌, give, throw,
}
use randevu.Local.Api.{RelayApi, Party, require_session}
use randevu.Local.Data.{MemberDto, ReceivedMessage, Randoms}
use randevu.Local.Folding.{receive}
use randevu.Local.Keys.{create_session, join_session, of_outcome}
use randevu.Local.Sending.{send}
use randevu.Noble.{Noble}
use randevu.Relay.Session.Data.{Batch}
use randevu.Relay.Store.{Store}

-- A relay's client, with its long poll.
pub record Client (W : Type 0) : Type 0 where
  pub api : RelayApi W
  pub wait : Str → ℕ → ℕ → W → Attempt Batch × W

-- `Date.now()` and `setTimeout`.
pub record Clock (W : Type 0) : Type 0 where
  pub now : W → ℕ
  pub sleep : ℕ → W → W

-- The object with the fields of the room layer: the address of its relay, `kind` and `myRole`.
pub record Seat (W : Type 0) : Type 0 where
  pub party : Party W
  pub endpoint : Str
  pub kind : Str
  pub my_role : Str

pub record OpenedRoom : Type 0 where
  pub session_id : Str
  pub invite : Str
  pub link : Str
  pub kind : Str
  pub role : Str
  pub context : Str

pub record JoinedRoom : Type 0 where
  pub session_id : Str
  pub kind : Str
  pub role : Str
  pub context : Str
  pub members : List Str

-- a || b
abbrev pub or_text : Str → Str → Str
or_text [] b = b
or_text (c ∷ s) b = c ∷ s

-- kind ? roleByOrder(kind, order) : ""
unfoldable pub role_for : Str → ℕ → Str
unfolding role_by_order
role_for [] order = []
role_for (c ∷ kind) order = role_by_order (c ∷ kind) (pos order)

-- kind ? roomContext(kind, this.myRole) : ""
unfoldable pub context_for : Str → Str → Str
unfolding room_context
context_for [] role = []
context_for (c ∷ kind) role = room_context (c ∷ kind) role [] none

module _ {W : Type 0} where
  abbrev pub with_party {ℓ} : {A : Type ℓ} → Seat W → Attempt A × Party W → Attempt A × Seat W
  with_party s (a, p) =
      (a, record { party = p; endpoint = s.endpoint; kind = s.kind; my_role = s.my_role })

  abbrev pub in_party {ℓ} : {A : Type ℓ} → Action (Party W) A → Action (Seat W) A
  in_party m = λ s. with_party s (m s.party)

  abbrev pub here : Action (Seat W) (Seat W)
  here = λ s. (done s, s)

  abbrev pub set_kind : Str → Str → Action (Seat W) (Unit {0})
  set_kind kind role =
      λ s. (done tt, record { party = s.party; endpoint = s.endpoint; kind = kind; my_role = role })

  -- this.relay = this.makeRelay(url)
  unfoldable pub set_relay : Str → Action (Seat W) (Unit {0})
  unfolding without_slashes
  set_relay url = λ s. (
    done tt,
    record { party = s.party; endpoint = without_slashes url; kind = s.kind; my_role = s.my_role },
  )

-- The clients that `makeRelay` builds, by their addresses.
module _ {W : Type 0} (noble : Noble) (uri : Uri) (connect : Str → Client W) where
  unfoldable pub open_room : Str → Str → ℕ → Action (Seat W) OpenedRoom
  unfolding role_for context_for
  open_room kind role max_members = do
    early ← here
    (session_id, invite, invite_obj) ←
        in_party (create_session noble (connect early.endpoint).api max_members)
    set_kind kind (or_text role (role_for kind 0))
    s ← here
    link ← of_outcome (encode_join_link uri s.endpoint invite_obj s.kind)
    give (record {
      session_id = session_id;
      invite = invite;
      link = link;
      kind = s.kind;
      role = s.my_role;
      context = context_for kind s.my_role;
    })

  -- The invite and the kind of a link, whose relay is the one to talk to from here on.
  unfoldable pub follow_link : Str → Str → Action (Seat W) (Str × Str)
  follow_link link kind = do
    parsed ← of_outcome (parse_join_link uri link)
    s ← here
    if not (str_eq parsed.relay_url s.endpoint) then set_relay parsed.relay_url else give tt
    invite ← of_outcome (encode_invite parsed.invite)
    give (invite, or_text kind (or_no_text parsed.kind))

  unfoldable pub read_invite : Str → Str → Action (Seat W) (Str × Str)
  unfolding scheme follow_link
  read_invite invite_or_link kind =
      if is_some (scheme (trim invite_or_link))
      then follow_link (trim invite_or_link) kind
      else give (trim invite_or_link, kind)

  -- The rest of `joinRoom`, behind the reading of its first argument.
  unfoldable pub join_with : Str → Str → Str → Action (Seat W) JoinedRoom
  unfolding role_for context_for
  join_with invite join_kind role = do
    early ← here
    in_party (join_session noble (connect early.endpoint).api invite)
    set_kind join_kind (or_text role (role_for join_kind 1))
    session_id ← in_party require_session
    s ← here
    give (record {
      session_id = session_id;
      kind = join_kind;
      role = s.my_role;
      context = context_for join_kind s.my_role;
      members = map (λ m. m.0) s.party.me.members_by_id;
    })

  unfoldable pub join_room : Str → Str → Str → Action (Seat W) JoinedRoom
  unfolding read_invite join_with
  join_room invite_or_link kind role = do
    (invite, join_kind) ← read_invite invite_or_link kind
    join_with invite join_kind role
