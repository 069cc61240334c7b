-- ===== src/Mcp/Room.antt =====
-- The hosted, plaintext room: the class `Room` of apps/mcp/src/room.ts. The Durable Object's storage
-- is a cell for each fixed key and the entries under "msg:"; `none` is a key that is not there. The
-- waiters that `send` wakes are a part of RoomHost.
pub mod Joining
pub mod Log
pub mod Reading
use randevu.Base.{
  ℕ, zero, suc, ◌+◌, Bool, true, false, not, ◌||◌, Option, none, some, is_some, List, [], ◌∷◌, ◌++◌,
  length, map, Str, text, str_eq, decimal, pad_start, ltb, if◌then◌else◌,
}
use randevu.Base.Numbered.{newer_by, sort_by, last_by}
use randevu.Base.Outcome.{Outcome, returns, throws}
use randevu.Core.Kinds.{
  KindDef, kinds, find_kind, names, guidance_for, assign_role, ℤ, pos, negsuc, or_no_text,
}
use randevu.Core.Waiters.{Waiters, Poll, Polled, long_poll}
use randevu.Relay.Store.{Store, get, put, list}

pub record RoomMessage : Type 0 where
  pub seq : ℕ
  pub from : Str
  pub text : Str
  pub type : Option Str
  pub retry_after : Option ℕ
  pub ts : ℕ

pub record Cells : Type 0 where
  pub is_open : Option Bool
  pub seq : Option ℕ
  pub members : Option (List Str)
  pub roles : Option (List (Str × Str))
  pub kind : Option Str
  pub brief : Option Str
  pub custom_roles : Option (List (Str × Str))
  pub messages : Store RoomMessage

pub record JoinResult : Type 0 where
  pub members : List Str
  pub kind : Str
  pub role : Str
  pub brief : Str
  pub role_guidance : Str

abbrev pub or_else {ℓ} : {A : Type ℓ} → Option A → A → A
or_else none d = d
or_else (some a) d = a

-- `text || d`
abbrev pub or_text : Str → Str → Str
or_text [] d = d
or_text (c ∷ s) d = c ∷ s

abbrev pub is_true : Option Bool → Bool
is_true (some true) = true
is_true _ = false

-- members.includes(name), members.indexOf(name)
unfoldable pub includes_name : Str → List Str → Bool
includes_name name [] = false
includes_name name (m ∷ ms) = str_eq m name || includes_name name ms

unfoldable pub index_of : Str → List Str → ℤ
index_of name [] = negsuc 0
index_of name (m ∷ ms) =
    let rest = index_of name ms in if str_eq m name then pos 0 else after_one rest
  where
    after_one : ℤ → ℤ
    after_one (pos n) = pos (n + 1)
    after_one (negsuc n) = negsuc 0

-- roles[name] = assigned: a name that is there keeps its place
unfoldable pub set_role : Str → Str → List (Str × Str) → List (Str × Str)
set_role name role [] = (name, role) ∷ []
set_role name role ((n, r) ∷ rs) =
    if str_eq n name then (n, role) ∷ rs else (n, r) ∷ set_role name role rs

unfoldable pub role_keys : Str → List (Str × Str) → List Str
unfolding find_kind
role_keys kind custom = elim (find_kind kind kinds) [ none ↦ names custom | some d ↦ names d.roles ]

unfoldable pub with_member : Str → List Str → List Str
unfolding includes_name
with_member name ms = if includes_name name ms then ms else ms ++ name ∷ []

-- KINDS[kind]?.roles[assigned] ?? customRoles[assigned] ?? ""
unfoldable pub role_guidance_for : Str → Str → List (Str × Str) → Str
unfolding find_kind guidance_for
role_guidance_for kind role custom =
    or_else (elim (find_kind kind kinds) [ none ↦ none | some d ↦ guidance_for role d.roles ])
      (or_no_text (guidance_for role custom))

-- `put("members", …)` only for a new name; the roles are always written.
unfoldable pub join_open : Cells → Str → Str → JoinResult × Cells
unfolding with_member index_of set_role role_keys role_guidance_for guidance_for includes_name
join_open c name role =
    let kind = or_else c.kind (text "chat") in
    let brief = or_else c.brief [] in
    let before = or_else c.members [] in
    let roles = or_else c.roles [] in
    let custom = or_else c.custom_roles [] in
    let members = with_member name before in
    let stored = if includes_name name before then c.members else some members in
    let assigned =
      or_else (guidance_for name roles)
        (or_text role (assign_role (role_keys kind custom) (index_of name members))) in
    (
      record {
        members = members;
        kind = kind;
        role = assigned;
        brief = brief;
        role_guidance = role_guidance_for kind assigned custom;
      },
      record c { members = stored; roles = some (set_role name assigned roles) },
    )

unfoldable pub join : Cells → Str → Str → Outcome JoinResult × Cells
unfolding join_open
join c name role =
    if not (is_true c.is_open)
    then (throws (text "room not found — no open room with that code"), c)
    else (returns (join_open c name role).0, (join_open c name role).1)

unfoldable pub open_room :
    Cells → Str → Str → Str → Str → List (Str × Str) → Outcome JoinResult × Cells
unfolding join
open_room c name kind role brief custom_roles =
    if is_true c.is_open
    then join c name role
    else join
        (record {
          is_open = some true;
          seq = some 0;
          members = some [];
          roles = some [];
          kind = some (or_text kind (text "chat"));
          brief = some brief;
          custom_roles = some custom_roles;
          messages = c.messages;
        })
        name role

abbrev pub msg_key : ℕ → Str
msg_key n = text "msg:" ++ pad_start 9 (decimal n)

abbrev pub some_text : Str → Option Str
some_text [] = none
some_text (c ∷ s) = some (c ∷ s)

-- The clock is an argument.
unfoldable pub send : Cells → ℕ → Str → Str → Str → Option ℕ → ℕ × Cells
send c now from words type retry_after =
    let seq = or_else c.seq 0 + 1 in
    (
      seq,
      record c {
        seq = some seq;
        messages = put c.messages (msg_key seq) (record {
          seq = seq;
          from = from;
          text = words;
          type = some_text type;
          retry_after = retry_after;
          ts = now;
        });
      },
    )

abbrev pub listed : List (Str × RoomMessage) → List RoomMessage
listed [] = []
listed ((k, m) ∷ es) = m ∷ listed es

-- filter((m) => m.seq > after)
unfoldable pub newer : ℕ → List RoomMessage → List RoomMessage
newer = newer_by (λ m. m.seq)

-- sort((a, b) => a.seq - b.seq)
unfoldable pub sort_messages : List RoomMessage → List RoomMessage
sort_messages = sort_by (λ m. m.seq)

unfoldable pub last_seq : ℕ → List RoomMessage → ℕ
last_seq = last_by (λ m. m.seq)

-- The messages, and the cursor.
unfoldable pub receive : Cells → ℕ → List RoomMessage × ℕ
unfolding newer sort_messages last_seq
receive c after =
    let start : Option Str = if ltb 0 after then some (msg_key (after + 1)) else none in
    let found = sort_messages (newer after (listed (list c.messages (text "msg:") start))) in
    (found, last_seq after found)

pub record RoomStatus : Type 0 where
  pub is_open : Bool
  pub members : List Str
  pub roles : List (Str × Str)
  pub kind : Str
  pub last_seq : ℕ

unfoldable pub status : Cells → RoomStatus
status c = record {
  is_open = or_else c.is_open false;
  members = or_else c.members [];
  roles = or_else c.roles [];
  kind = or_else c.kind [];
  last_seq = or_else c.seq 0;
}

abbrev is_cons : List RoomMessage → Bool
is_cons [] = false
is_cons (m ∷ ms) = true

-- The room as its host runs it: the storage, the waiters and the clock.
pub record RoomHost : Type 0 where
  pub cells : Cells
  pub waiters : Waiters
  pub clock : ℕ

-- What `wait` gives to `longPoll`; what the host does while a waiter is parked is an argument.
abbrev pub polling : (ℕ → ℕ → RoomHost → RoomHost) → ℕ → Poll RoomHost (List RoomMessage × ℕ)
unfolding receive
polling resume after = record {
  now = λ h. h.clock;
  waiters = λ h. h.waiters;
  set_waiters = λ ws h. record { cells = h.cells; waiters = ws; clock = h.clock };
  read = λ h. (some (receive h.cells after), h);
  found = λ r. is_cons r.0;
  on_timeout = ([], after);
  resume = resume;
}

unfoldable pub wait :
    (ℕ → ℕ → RoomHost → RoomHost) → ℕ → ℕ → ℕ → RoomHost → Polled (List RoomMessage × ℕ) × RoomHost
unfolding polling long_poll
wait resume fuel after timeout_ms = long_poll (polling resume after) fuel timeout_ms
