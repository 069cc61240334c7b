-- ===== src/Core/Waiters.antt =====
-- Long-poll waiters: packages/core/src/waiters.ts. The host runs one callback at a time, so a history
-- is a row of steps; a timer fires only while it is set. A waiter is known by its number.
pub mod Reached
pub mod Polling
use randevu.Base.{
  ℕ, zero, suc, ◌+◌, ◌-◌, Bool, true, false, Option, none, some, List, [], ◌∷◌, ◌++◌, if◌then◌else◌,
  ◌==◌, leb, ◌||◌, ◌≡◌,
}

-- `waiters`, the timers that are set, and the promises resolved so far, with the number of waiters.
pub record Waiters : Type 0 where
  pub started : ℕ
  pub waiters : List ℕ
  pub timers : List ℕ
  pub resolved : List ℕ

abbrev pub no_waiters : Waiters
no_waiters = record { started = 0; waiters = []; timers = []; resolved = [] }

-- indexOf and splice, and clearTimeout
unfoldable pub remove : ℕ → List ℕ → List ℕ
remove i [] = []
remove i (j ∷ js) = if j == i then js else j ∷ remove i js

unfoldable pub wait : Waiters → Waiters
wait w = record {
  started = w.started + 1;
  waiters = w.waiters ++ w.started ∷ [];
  timers = w.timers ++ w.started ∷ [];
  resolved = w.resolved;
}

-- for (const resolve of pending) resolve()
unfoldable pub resolve_all : List ℕ → Waiters → Waiters
unfolding remove
resolve_all [] w = w
resolve_all (i ∷ pending) w =
    resolve_all pending (record w { timers = remove i w.timers; resolved = w.resolved ++ i ∷ [] })

unfoldable pub wake_all : Waiters → Waiters
unfolding resolve_all
wake_all w = resolve_all w.waiters (record w { waiters = [] })

-- The timer's callback.
unfoldable pub time_out : ℕ → Waiters → Waiters
unfolding remove
time_out i w = record {
  started = w.started;
  waiters = remove i w.waiters;
  timers = remove i w.timers;
  resolved = w.resolved ++ i ∷ [];
}

unfoldable pub is_set : ℕ → List ℕ → Bool
is_set i [] = false
is_set i (j ∷ js) = j == i || is_set i js

pub data Step : Waiters → Waiters → Type 0 where
  waits : {w : Waiters} → Step w (wait w)
  wakes : {w : Waiters} → Step w (wake_all w)
  fires : {w : Waiters} (i : ℕ) → is_set i w.timers ≡ true → Step w (time_out i w)

pub data Reachable : Waiters → Type 0 where
  fresh : Reachable no_waiters
  after : {w v : Waiters} → Reachable w → Step w v → Reachable v

-- What `longPoll` runs on: the clock, the waiters that the readers share, the caller's read, which may
-- throw, and what the host does from when a waiter of this number, with these milliseconds on its timer,
-- is parked until it is resolved.
pub record Poll (W R : Type 0) : Type 0 where
  pub now : W → ℕ
  pub waiters : W → Waiters
  pub set_waiters : Waiters → W → W
  pub read : W → Option R × W
  pub found : R → Bool
  pub on_timeout : R
  pub resume : ℕ → ℕ → W → W

-- `unfinished` is where the fuel ends.
pub data Polled (R : Type 0) : Type 0 where
  unfinished : Polled R
  rejected : Polled R
  resolved_to : R → Polled R

module _ {W R : Type 0} (poll : Poll W R) where
  -- await waiters.wait(remaining)
  unfoldable pub parked : ℕ → W → W
  unfolding wait
  parked remaining w =
      poll.resume (poll.waiters w).started remaining (poll.set_waiters (wait (poll.waiters w)) w)

  -- A round of the loop behind its read; `next` is the rest of the loop.
  abbrev pub round : ℕ → (W → Polled R × W) → Option R × W → Polled R × W
  unfolding parked
  round deadline next (none, w) = (rejected, w)
  round deadline next (some r, w) =
      if poll.found r
      then (resolved_to r, w)
      else if leb deadline (poll.now w)
      then (resolved_to poll.on_timeout, w)
      else next (parked (deadline - poll.now w) w)

  unfoldable pub poll_loop : ℕ → ℕ → W → Polled R × W
  unfolding round
  poll_loop deadline zero w = (unfinished, w)
  poll_loop deadline (suc fuel) w = round deadline (poll_loop deadline fuel) (poll.read w)

  unfoldable pub long_poll : ℕ → ℕ → W → Polled R × W
  unfolding poll_loop
  long_poll fuel timeout_ms w = poll_loop (poll.now w + timeout_ms) fuel w
