-- ===== src/Relay/Shell.antt =====
-- The session's host: apps/relay/src/session-do.ts. One request runs at a time on the store
-- (`blockConcurrencyWhile`); while a long poll is parked, others run.
pub mod Waking
use randevu.Base.{
  ℕ, ◌≤◌, min, max, Bool, true, false, ◌&&◌, Option, none, some, List, [], ◌∷◌, Str, text, str_eq,
  ◌==◌, Bool-cases, Option-cases, inl, inr, ◌⊎◌, ◌≡◌, refl, sym, ap, ◌∙◌, arith, if◌then◌else◌,
}
use randevu.Noble.{Noble}
use randevu.Core.Waiters.{
  Waiters, wake_all, Poll, Polled, unfinished, rejected, resolved_to, long_poll,
}
use randevu.Relay.Store.{Store}
use randevu.Relay.Session.Data.{Value, StoredMessage, Batch, Result, ok, err}
use randevu.Relay.Session.{get_messages}
use randevu.Relay.Dispatch.{
  DispatchCtx, Ambient, Reply, ReplyBody, reply, rethrown, error_body, batch_body, authenticate,
  dispatch_session,
}

pub record Host : Type 0 where
  pub store : Store Value
  pub waiters : Waiters
  pub clock : ℕ

-- A response; `held` is a long poll whose fuel has ended.
pub data Response : Type 0 where
  sent : ℕ → ReplyBody → Response
  held : Response

-- `Number(params.get("timeout") ?? "25000")`, `none` where it is not finite
unfoldable pub clamped : Option ℕ → ℕ
clamped none = 25000
clamped (some raw) = min 55000 (max 1000 raw)

abbrev pub failure : Response
failure = sent 500 (error_body "internal_error")

-- A read throws where the session throws.
abbrev pub read_result : Host → Result Batch × Store Value → Option Batch × Host
read_result h (ok b, st) = (some b, record { store = st; waiters = h.waiters; clock = h.clock })
read_result h (err n code, st) = (none, record { store = st; waiters = h.waiters; clock = h.clock })

abbrev pub is_cons : List StoredMessage → Bool
is_cons [] = false
is_cons (m ∷ ms) = true

-- What `handleWait` gives to `longPoll`; what the host does while a waiter is parked, such as other
-- requests, is an argument.
unfoldable pub polling : (ℕ → ℕ → Host → Host) → ℕ → Poll Host Batch
unfolding get_messages
polling resume after = record {
  now = λ h. h.clock;
  waiters = λ h. h.waiters;
  set_waiters = λ ws h. record { store = h.store; waiters = ws; clock = h.clock };
  read = λ h. read_result h (get_messages h.store after);
  found = λ b. is_cons b.messages;
  on_timeout = record { messages = []; cursor = after };
  resume = resume;
}

abbrev pub polled : Polled Batch × Host → Response × Host
polled (unfinished, h) = (held, h)
polled (rejected, h) = (failure, h)
polled (resolved_to b, h) = (sent 200 (batch_body b), h)

module _ (noble : Noble) (resume : ℕ → ℕ → Host → Host) (fuel : ℕ) (amb : Ambient) (host : Host)
    (ctx : DispatchCtx) (timeout : Option ℕ) where
  -- Behind the authentication, which may throw.
  abbrev pub waiting : Option Bool → Response × Host
  unfolding long_poll clamped polling
  waiting none = (failure, host)
  waiting (some false) = (sent 401 (error_body "unauthenticated"), host)
  waiting (some true) = polled (long_poll (polling resume ctx.after) fuel (clamped timeout) host)

  unfoldable pub handle_wait : Response × Host
  unfolding authenticate waiting
  handle_wait = waiting (authenticate noble amb host.store (record ctx { path = text "/wait" }))

abbrev pub is_post : DispatchCtx → Bool
is_post ctx = str_eq ctx.path (text "/messages") && str_eq ctx.method (text "POST")

-- The answer of the session, and the waiters woken by a message that was posted.
abbrev pub answered : DispatchCtx → Host → Reply × Store Value → Response × Host
answered ctx h (rethrown, st) =
    (failure, record { store = st; waiters = h.waiters; clock = h.clock })
answered ctx h (reply status body, st) = (
  sent status body,
  record {
    store = st;
    waiters = if is_post ctx && (status == 200) then wake_all h.waiters else h.waiters;
    clock = h.clock;
  },
)

unfoldable pub fetch :
    Noble → (ℕ → ℕ → Host → Host) → ℕ → Ambient → Host → DispatchCtx → Option ℕ → Response × Host
unfolding handle_wait dispatch_session wake_all
fetch noble resume fuel amb host ctx timeout =
    if str_eq ctx.path (text "/wait") && str_eq ctx.method (text "GET")
    then handle_wait noble resume fuel amb host ctx timeout
    else answered ctx host (dispatch_session noble amb host.store ctx)
