-- ===== src/Local/Waiting/Ending.antt =====
-- The wait of a member ends: each round of the loop takes time.
use randevu.Base.{
  ℕ, leb, min, ◌/◌, zero, suc, ◌+◌, ◌≤◌, ◌<◌, Option, none, some, List, [], ◌∷◌, Str, ◌==◌, arith,
  Bool-cases, inl, inr,
}
use randevu.Local.Action.{Attempt, done, fails, foreign, error, relay_error, Action, then}
use randevu.Local.Api.{Party, session_or_throw}
use randevu.Local.Data.{Randoms, ReceivedMessage}
use randevu.Local.Folding.{receive}
use randevu.Local.Rooming.{Client, Clock}
use randevu.Local.Waiting.Forward.{IsTicking, time, receive-Forward}
use randevu.Local.Waiting.{caught, remaining, poll, answered, wait_loop, wait_for_message}
use randevu.Noble.{Noble}
use randevu.Relay.Session.Data.{Batch}

module _ {W : Type 0} (clock : Clock W) where
  -- The wait is over: with messages, with none once the deadline is there, or with an error.
  abbrev pub IsOver : ℕ → Attempt (Option (List ReceivedMessage)) × Party W → Type 0
  IsOver deadline (done none, s) = ⊥
  IsOver deadline (done (some []), s) = deadline ≤ clock.now s.world
  IsOver deadline (done (some (m ∷ ms)), s) = Unit
  IsOver deadline (fails e, s) = Unit

  module _ (client : Client W) (ticking : IsTicking clock client) (noble : Noble) where
    caught-later :
        (left n : ℕ) (r : Attempt Batch × W)
        → n < clock.now r.1
        → n < clock.now (caught clock left r).1
    unfolding caught
    caught-later left n (done b, w) h = h
    caught-later left n (fails (relay_error m code), w) h = elim (Bool-cases (m == 404)) [
      | inl absent ↦ rw absent (omega (arith, h, ticking.sleep (min 1500 left) w))
      | inr other ↦ rw other h
    ]
    caught-later left n (fails foreign, w) h = omega (arith, h, ticking.sleep (min 1500 left) w)
    caught-later left n (fails (error m), w) h = omega (arith, h, ticking.sleep (min 1500 left) w)

    poll-later :
        (id : Str) (left : ℕ) (s : Party W)
        → clock.now s.world < time clock (poll clock noble client id left s)
    unfolding poll
    poll-later id left s =
        let seconds = min 50 ((left + 999) / 1000) in
        caught-later left (clock.now s.world) (client.wait id s.me.fetched_seq seconds s.world)
          (ticking.wait id s.me.fetched_seq seconds s.world)

    polled-IsOver :
        (deadline n : ℕ) (p : Attempt (Unit {0}) × Party W)
        (rest : Action (Party W) (Option (List ReceivedMessage)))
        → ((t : Party W) → n < clock.now t.world → IsOver deadline (rest t))
        → n < time clock p
        → IsOver deadline ((then) (λ u. rest) p)
    polled-IsOver deadline n (done u, t) rest k h = k t h
    polled-IsOver deadline n (fails e, t) rest k h = tt

    answered-IsOver :
        (id : Str) (deadline n : ℕ) (r : Attempt (List ReceivedMessage) × Party W)
        (rest : Action (Party W) (Option (List ReceivedMessage)))
        → ((t : Party W) → n < deadline → n < clock.now t.world → IsOver deadline (rest t))
        → n ≤ time clock r
        → IsOver deadline ((then) (answered clock noble client id deadline rest) r)
    unfolding answered
    answered-IsOver id deadline n (fails e, t) rest k h = tt
    answered-IsOver id deadline n (done (m ∷ ms), t) rest k h = tt
    answered-IsOver id deadline n (done [], t) rest k h =
        elim (Bool-cases (leb deadline (clock.now t.world))) [
          | inl late ↦ rw late (ground arith)
          | inr early ↦ rw early (
              polled-IsOver deadline n (poll clock noble client id (remaining clock deadline t) t)
                rest (λ u. k u (ground arith))
                (omega (arith, h, poll-later id (remaining clock deadline t) t)))
        ]

    wait_loop-IsOver :
        (rand : ℕ → Randoms) (id : Str) (deadline fuel : ℕ) (s : Party W)
        → deadline < clock.now s.world + fuel
        → 0 < fuel
        → IsOver deadline (wait_loop clock noble client rand id deadline fuel s)
    unfolding wait_loop
    wait_loop-IsOver rand id deadline zero s h p = absurd (omega arith)
    wait_loop-IsOver rand id deadline (suc fuel) s h p =
        answered-IsOver id deadline (clock.now s.world) (receive noble client.api (rand fuel) s)
          (wait_loop clock noble client rand id deadline fuel)
          (λ t early later. wait_loop-IsOver rand id deadline fuel t (omega arith) (omega arith))
          (receive-Forward clock client ticking noble (rand fuel) s)

    started-IsOver :
        (rand : ℕ → Randoms) (fuel timeout_ms : ℕ) (s : Party W) (o : Option Str)
        → timeout_ms < fuel
        → IsOver (clock.now s.world + timeout_ms) (
            (then)
              (λ id t. wait_loop clock noble client rand id (clock.now t.world + timeout_ms) fuel t)
              (session_or_throw o s))
    started-IsOver rand fuel timeout_ms s none h = tt
    started-IsOver rand fuel timeout_ms s (some []) h = tt
    started-IsOver rand fuel timeout_ms s (some (c ∷ id)) h =
        wait_loop-IsOver rand (c ∷ id) (clock.now s.world + timeout_ms) fuel s (omega arith)
          (omega arith)

    -- Where no call turns the clock back and each long poll takes a tick, waiting ends within more
    -- rounds than there are milliseconds: with messages, with none at the deadline or later, or with
    -- an error.
    pub wait_for_message-IsOver :
        (rand : ℕ → Randoms) (fuel timeout_ms : ℕ) (s : Party W)
        → timeout_ms < fuel
        → IsOver
            (clock.now s.world + timeout_ms)
            (wait_for_message clock noble client rand fuel timeout_ms s)
    unfolding wait_for_message
    wait_for_message-IsOver rand fuel timeout_ms s h =
        started-IsOver rand fuel timeout_ms s s.me.session_id h
