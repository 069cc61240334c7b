-- ===== src/Relay/Shell/Waking.antt =====
-- When the session's host starts a long poll, and when it ends those that wait.
use randevu.Base.{
  ℕ, ◌≤◌, ◌<◌, Bool, true, false, ◌&&◌, Option, none, some, [], text, str_eq, str_eq_iff, ◌≡◌, refl,
  ap, sym, ◌∙◌, subst, arith, ◌+◌, String, inl, inr,
}
use randevu.Noble.{Noble}
use randevu.Core.Waiters.{Reachable, Polled, unfinished, rejected, resolved_to, long_poll}
use randevu.Core.Waiters.Polling.{IsTicking, Reads, Settled, IsEnded, long_poll-IsEnded}
use randevu.Core.Waiters.Reached.{count, wake_all_lem}
use randevu.Relay.Store.{Store}
use randevu.Relay.Session.Data.{Value, Batch, Result, ok, err}
use randevu.Relay.Session.{get_messages}
use randevu.Relay.Dispatch.{
  DispatchCtx, Ambient, ReplyBody, reply, batch_body, error_body, authenticate, dispatch_session,
}
use randevu.Relay.Shell.{
  Host, Response, sent, failure, clamped, is_cons, read_result, polling, polled, waiting,
  handle_wait, is_post, fetch,
}

clamped-bounds : (o : Option ℕ) → (1000 ≤ clamped o) × (clamped o ≤ 55000)
unfolding clamped
clamped-bounds none = (omega arith, omega arith)
clamped-bounds (some raw) = (omega arith, omega arith)

-- What an authenticated wait is answered with, by the last read of its long poll: the messages that the
-- session gives there, or none with the cursor it asked for, at the deadline or later, or an error where
-- the session has none.
pub data Answers (last : Host) (after deadline : ℕ) : Response → Type 0 where
  messages :
      (b : Batch) (st : Store Value)
      → get_messages last.store after ≡ (ok b, st)
      → is_cons b.messages ≡ true
      → Answers last after deadline (sent 200 (batch_body b))
  timed_out :
      (b : Batch) (st : Store Value)
      → get_messages last.store after ≡ (ok b, st)
      → is_cons b.messages ≡ false
      → deadline ≤ last.clock
      → Answers last after deadline
          (sent 200 (batch_body (record { messages = []; cursor = after })))
  broken :
      (n : ℕ) (code : String) (st : Store Value)
      → get_messages last.store after ≡ (err n code, st)
      → Answers last after deadline failure

pub record IsAnswered (resume : ℕ → ℕ → Host → Host) (host : Host) (after deadline : ℕ)
    (end : Response × Host) : Type 0 where
  pub last : Host
  pub reached : Reads (polling resume after) deadline host last
  pub answer : Answers last after deadline end.0
  pub left : ((polling resume after).read last).1 ≡ end.1

-- A wait by how it is authenticated.
abbrev pub Waited : (ℕ → ℕ → Host → Host) → Host → ℕ → ℕ → Option Bool → Response × Host → Type 0
Waited resume host after deadline none end = end ≡ (failure, host)
Waited resume host after deadline (some false) end =
    end ≡ (sent 401 (error_body "unauthenticated"), host)
Waited resume host after deadline (some true) end = IsAnswered resume host after deadline end

module _ (resume : ℕ → ℕ → Host → Host) (host : Host) (after deadline : ℕ) where
  found_by : (b r : Batch) → some b ≡ some r → is_cons b.messages ≡ is_cons r.messages
  found_by b r f = let same : b ≡ r = cc in ap (λ (c : Batch). is_cons c.messages) same

  settled-Answers :
      (last : Host) (p : Polled Batch) (h : Host) (x : Result Batch × Store Value)
      → get_messages last.store after ≡ x
      → Settled (polling resume after) deadline p (read_result last x)
      → Answers last after deadline (polled (p, h)).0
  unfolding polling
  settled-Answers last unfinished h x e s = absurd s
  settled-Answers last rejected h (err n code, st) e s = broken n code st e
  settled-Answers last rejected h (ok b, st) e s = cc
  settled-Answers last (resolved_to a) h (err n code, st) e (r, (f, s)) = cc
  settled-Answers last (resolved_to a) h (ok b, st) e (r, (f, inl (hit, same))) =
      let here : b ≡ a = cc in
      subst (λ c. Answers last after deadline (sent 200 (batch_body c))) here
        (messages b st e (found_by b r f ∙ hit))
  settled-Answers last (resolved_to a) h (ok b, st) e (r, (f, inr (missed, (late, same)))) =
      subst (λ c. Answers last after deadline (sent 200 (batch_body c))) (sym same)
        (timed_out b st e (found_by b r f ∙ missed) late)

  polled-host : (p : Polled Batch) (h : Host) → (polled (p, h)).1 ≡ h
  polled-host unfinished h = refl
  polled-host rejected h = refl
  polled-host (resolved_to b) h = refl

  ended-IsAnswered :
      (p : Polled Batch) (h : Host)
      → IsEnded (polling resume after) deadline host (p, h)
      → IsAnswered resume host after deadline (polled (p, h))
  unfolding polling
  ended-IsAnswered p h e = record {
    last = e.last;
    reached = e.reached;
    answer = settled-Answers e.last p h (get_messages e.last.store after) refl e.settled;
    left = e.left ∙ sym (polled-host p h);
  }

module _ (noble : Noble) (resume : ℕ → ℕ → Host → Host) (fuel : ℕ) (amb : Ambient) (host : Host)
    (ctx : DispatchCtx) (timeout : Option ℕ) where
  waiting-Waited :
      (o : Option Bool)
      → IsTicking (polling resume ctx.after)
      → clamped timeout < fuel
      → Waited resume host ctx.after
          (host.clock + clamped timeout)
          o
          (waiting noble resume fuel amb host ctx timeout o)
  unfolding waiting polling
  waiting-Waited none ticking enough = refl
  waiting-Waited (some false) ticking enough = refl
  waiting-Waited (some true) ticking enough =
      let end = long_poll (polling resume ctx.after) fuel (clamped timeout) host in
      ended-IsAnswered resume host ctx.after (host.clock + clamped timeout) end.0 end.1
        (long_poll-IsEnded (polling resume ctx.after) ticking fuel (clamped timeout) host enough)

  -- A GET of /wait is answered. Unauthenticated it is refused with 401, or fails where authentication
  -- throws, and the host is left as it was. Else it is answered within 55 001 rounds from the last read of
  -- its long poll: with the messages that the session has there after the cursor, or with none and the
  -- same cursor when one second to fifty-five have passed, or it fails where the session has gone. No step
  -- turns the clock back, and each wait takes a tick or is followed by a read that finds messages.
  pub fetch-Waited :
      str_eq ctx.path (text "/wait") ≡ true
      → str_eq ctx.method (text "GET") ≡ true
      → IsTicking (polling resume ctx.after)
      → 55000 < fuel
      → (1000 ≤ clamped timeout)
        × ((clamped timeout ≤ 55000)
            × Waited resume host ctx.after
                (host.clock + clamped timeout)
                (authenticate noble amb host.store (record ctx { path = text "/wait" }))
                (fetch noble resume fuel amb host ctx timeout))
  unfolding fetch handle_wait
  fetch-Waited path get ticking enough =
      let (low, high) = clamped-bounds timeout in
      (
        low,
        (
          high,
          rw (path, get)
              (waiting-Waited
                (authenticate noble amb host.store (record ctx { path = text "/wait" })) ticking
                (omega arith)),
        ),
      )

  messages-not-wait : ctx.path ≡ text "/messages" → str_eq ctx.path (text "/wait") ≡ false
  unfolding str_eq
  messages-not-wait e = ap (λ s. str_eq s (text "/wait")) e

  and-left : (a b : Bool) → (a && b) ≡ true → a ≡ true
  and-left true b h = refl
  and-left false b h = h

  -- A message that the session accepts wakes everybody who waits: nobody is parked any more and each
  -- waiter that was ever started is resolved once.
  pub fetch-wakes :
      (body : ReplyBody) (st : Store Value)
      → is_post ctx ≡ true
      → dispatch_session noble amb host.store ctx ≡ (reply 200 body, st)
      → Reachable host.waiters
      → ((fetch noble resume fuel amb host ctx timeout).0 ≡ sent 200 body)
        × (((fetch noble resume fuel amb host ctx timeout).1.waiters.waiters ≡ [])
            × ((i : ℕ)
                → i < host.waiters.started
                → count i (fetch noble resume fuel amb host ctx timeout).1.waiters.resolved ≡ 1))
  unfolding fetch
  fetch-wakes body st post accepted reached =
      let path_is = (str_eq_iff ctx.path (text "/messages")).0 (and-left _ _ post) in
      let woken = wake_all_lem reached in
      rw (messages-not-wait path_is, accepted, post) (refl, (woken.0, woken.2))
