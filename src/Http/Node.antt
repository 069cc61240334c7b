-- ===== src/Http/Node.antt =====
-- The relay on plain Node: packages/cli/src/node-relay.ts. Requests are handled one at a time, as
-- `serialize` lines them up for a session; the parsed URL, the headers and the body are a record.
use randevu.Base.{
  ℕ, ◌&&◌, ◌||◌, Option, none, some, [], ◌∷◌, Str, text, str_eq, starts_with, drop, ◌==◌,
  if◌then◌else◌,
}
use randevu.Noble.{Noble}
use randevu.Relay.Store.{Store, get, put}
use randevu.Relay.Session.Data.{Value}
use randevu.Relay.Dispatch.{
  Body, DispatchCtx, Ambient, Reply, ReplyBody, reply, rethrown, error_body, dispatch_session,
}

pub record Incoming : Type 0 where
  pub method : Str
  -- url.pathname
  pub path : Str
  pub after : ℕ
  pub epoch : ℕ
  pub member_param : Str
  pub body : Body
  pub member : Option Str
  pub timestamp : Option Str
  pub signature : Option Str

pub data Answer : Type 0 where
  health : Answer
  join_page : Answer
  json : ℕ → ReplyBody → Answer

-- Each session has a store of its own.
abbrev pub Sessions : Type 0
Sessions = Store (Store Value)

unfoldable pub context : Incoming → Str → Str → DispatchCtx
context req session_id path = record {
  session_id = session_id;
  method = req.method;
  path = path;
  after = req.after;
  epoch = req.epoch;
  member_param = req.member_param;
  body = req.body;
  member = req.member;
  timestamp = req.timestamp;
  signature = req.signature;
}

-- What a thrown error becomes in `createServer`.
abbrev pub sent_as : Reply → Answer
sent_as (reply status body) = json status body
sent_as rethrown = json 500 (error_body "internal_error")

-- The result of the session's turn, and its store put back.
abbrev pub stored_at : Sessions → Str → Reply × Store Value → Answer × Sessions
stored_at sessions session_id (r, st) = (sent_as r, put sessions session_id st)

-- `rest` up to its first slash, and from there on.
unfoldable pub cut : Str → Str × Option Str
cut [] = ([], none)
cut (c ∷ s) = let rest = cut s in if c == 47 then ([], some (c ∷ s)) else (c ∷ rest.0, rest.1)

abbrev pub sub_path : Option Str → Str
sub_path none = text "/status"
sub_path (some sub) = sub

abbrev pub turn :
    Noble → Ambient → Sessions → Incoming → Str → Str → Option (Store Value) → Answer × Sessions
turn noble amb sessions req session_id sub none =
    (json 404 (error_body "session_not_found"), sessions)
turn noble amb sessions req session_id sub (some st) =
    stored_at sessions session_id (dispatch_session noble amb st (context req session_id sub))

abbrev pub scoped : Noble → Ambient → Sessions → Incoming → Str × Option Str → Answer × Sessions
scoped noble amb sessions req (session_id, sub) =
    turn noble amb sessions req session_id (sub_path sub) (get sessions session_id)

-- `minted` is the new session's id, `rdv_` and sixteen random bytes.
unfoldable pub handle : Noble → Ambient → Str → Sessions → Incoming → Answer × Sessions
unfolding context dispatch_session cut starts_with
handle noble amb minted sessions req =
    if str_eq req.path (text "/")
    then (health, sessions)
    else if str_eq req.method (text "GET")
        && (str_eq req.path (text "/j") || starts_with req.path (text "/j/"))
    then (join_page, sessions)
    else if str_eq req.path (text "/sessions") && str_eq req.method (text "POST")
    then stored_at sessions minted
        (dispatch_session noble amb [] (context req minted (text "/init")))
    else if starts_with req.path (text "/sessions/")
    then scoped noble amb sessions req (cut (drop 10 req.path))
    else (json 404 (error_body "not_found"), sessions)
