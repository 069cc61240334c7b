-- ===== src/Relay/Dispatch.antt =====
-- Request authentication and routing: apps/relay/src/dispatch.ts. A call runs on the session's store
-- and leaves a store; the clock and `Number` are an argument.
pub mod Guarded
pub mod Steps
use randevu.Base.{
  ℕ, ◌+◌, ◌-◌, Bool, true, false, not, ◌&&◌, ◌||◌, Option, none, some, List, [], ◌∷◌, ◌++◌, Str,
  text, str_eq, ltb, if◌then◌else◌, String,
}
use randevu.Noble.{Noble, Bytes}
use randevu.Core.Crypto.{request_canonical, verify_request}
use randevu.Relay.Store.{Store}
use randevu.Relay.Session.{
  Value, MemberInput, MessageInput, KeysInput, JoinInput, Result, ok, err, InitResult, JoinResult,
  Batch, StoredWrappedKey, Status, Member, init, join, members, member_identity_pub, post_message,
  get_messages, post_keys, get_key, status,
}

-- What the parsed JSON body reads as under each of the casts of `dispatchSession`.
pub record Body : Type 0 where
  pub max_members : ℕ
  pub creator : MemberInput
  pub as_join : JoinInput
  pub as_message : MessageInput
  pub as_keys : KeysInput

pub record DispatchCtx : Type 0 where
  pub session_id : Str
  pub method : Str
  pub path : Str
  -- Number(params.get("after") ?? "0"), Number(params.get("epoch") ?? "0"), params.get("member") ?? ""
  pub after : ℕ
  pub epoch : ℕ
  pub member_param : Str
  pub body : Body
  pub member : Option Str
  pub timestamp : Option Str
  pub signature : Option Str

-- Date.now(), `Number` of a text (`none` where it is not finite), and the random join token.
pub record Ambient : Type 0 where
  pub now : ℕ
  pub number : Str → Option ℕ
  pub join_token : Str

pub data ReplyBody : Type 0 where
  error_body : String → ReplyBody
  init_body : InitResult → ReplyBody
  join_body : JoinResult → ReplyBody
  members_body : List Member → ReplyBody
  posted_body : ℕ → ReplyBody
  batch_body : Batch → ReplyBody
  done_body : ReplyBody
  key_body : StoredWrappedKey → ReplyBody
  status_body : Status → ReplyBody

-- A DispatchResult, or an error that is thrown on.
pub data Reply : Type 0 where
  reply : ℕ → ReplyBody → Reply
  rethrown : Reply

unfoldable pub member_only : Str → Bool
member_only path =
    str_eq path (text "/members")
    || str_eq path (text "/messages")
    || str_eq path (text "/keys")
    || str_eq path (text "/status")

abbrev pub max_skew_ms : ℕ
max_skew_ms = 300000

-- Math.abs(a - b)
abbrev pub distance : ℕ → ℕ → ℕ
distance a b = (a - b) + (b - a)

-- `!s` for a header
abbrev pub given : Option Str → Option Str
given none = none
given (some []) = none
given (some (c ∷ s)) = some (c ∷ s)

unfoldable pub full_path : DispatchCtx → Str
full_path ctx = text "/sessions/" ++ (ctx.session_id ++ ctx.path)

-- The stored key is decoded outside of any try block.
abbrev pub verified : Noble → DispatchCtx → Str → Str → Option Bytes → Option Bool
verified noble ctx timestamp signature none = none
verified noble ctx timestamp signature (some identity_pub) = some (
    verify_request noble identity_pub (request_canonical ctx.method (full_path ctx) timestamp)
      signature)

-- `if (!pub) return false`: an empty key is falsy as well
abbrev pub with_key : Noble → DispatchCtx → Str → Str → Option Str → Option Bool
with_key noble ctx timestamp signature none = some false
with_key noble ctx timestamp signature (some pub_key) =
    verified noble ctx timestamp signature (noble.hex_to_bytes pub_key)

abbrev pub fresh : Ambient → Option ℕ → Bool
fresh amb none = false
fresh amb (some ts) = not (ltb max_skew_ms (distance amb.now ts))

abbrev pub signed_by :
    Noble → Ambient → Store Value → DispatchCtx → Option Str → Option Str → Option Str → Option Bool
signed_by noble amb st ctx (some fp) (some timestamp) (some signature) =
    if not (fresh amb (amb.number timestamp))
    then some false
    else with_key noble ctx timestamp signature (given (member_identity_pub st fp))
signed_by noble amb st ctx _ _ _ = some false

-- `none` is a throw.
unfoldable pub authenticate : Noble → Ambient → Store Value → DispatchCtx → Option Bool
unfolding full_path member_identity_pub
authenticate noble amb st ctx =
    signed_by noble amb st ctx (given ctx.member) (given ctx.timestamp) (given ctx.signature)

-- `ok(await …)`, with a SessionError turned into its status and code
abbrev pub answer {ℓ} :
    {A : Type ℓ} → (A → ReplyBody) → Result A × Store Value → Reply × Store Value
answer f (ok a, st) = (reply 200 (f a), st)
answer f (err n code, st) = (reply n (error_body code), st)

abbrev pub at : DispatchCtx → String → String → Bool
at ctx path method = str_eq ctx.path (text path) && str_eq ctx.method (text method)

-- The routes behind the authentication.
unfoldable pub route : Noble → Ambient → Store Value → DispatchCtx → Reply × Store Value
unfolding init join members post_message get_messages post_keys get_key status
route noble amb st ctx =
    if at ctx "/init" "POST"
    then answer init_body (
        init noble st
          (record {
            session_id = ctx.session_id;
            max_members = ctx.body.max_members;
            creator = ctx.body.creator;
          })
          amb.join_token)
    else if at ctx "/join" "POST"
    then answer join_body (join noble st ctx.body.as_join)
    else if at ctx "/members" "GET"
    then (reply 200 (members_body (members st)), st)
    else if at ctx "/messages" "POST"
    then answer posted_body (post_message st ctx.body.as_message)
    else if at ctx "/messages" "GET"
    then answer batch_body (get_messages st ctx.after)
    else if at ctx "/keys" "POST"
    then answer (λ u. done_body) (post_keys st ctx.body.as_keys)
    else if at ctx "/keys" "GET"
    then answer key_body (get_key st ctx.epoch ctx.member_param)
    else if at ctx "/status" "GET"
    then answer status_body (status st)
    else (reply 404 (error_body "not_found"), st)

abbrev pub after_auth :
    Noble → Ambient → Store Value → DispatchCtx → Option Bool → Reply × Store Value
after_auth noble amb st ctx none = (rethrown, st)
after_auth noble amb st ctx (some false) = (reply 401 (error_body "unauthenticated"), st)
after_auth noble amb st ctx (some true) = route noble amb st ctx

unfoldable pub dispatch_session : Noble → Ambient → Store Value → DispatchCtx → Reply × Store Value
unfolding member_only authenticate route
dispatch_session noble amb st ctx =
    if member_only ctx.path
    then after_auth noble amb st ctx (authenticate noble amb st ctx)
    else route noble amb st ctx
