-- ===== src/Local/Waiting.antt =====
-- `waitForMessage` and `sendAndWait` of `RandevuLocal` (packages/local/src/server.ts). The loop runs on
-- fuel, and says `none` where it has none left.
pub mod Forward
pub mod Ending
use randevu.Base.{
  ℕ, zero, suc, ◌+◌, ◌-◌, ◌/◌, min, Bool, true, false, Option, none, some, List, [], ◌∷◌, Str, leb,
  ◌==◌, if◌then◌else◌,
}
use randevu.Local.Action.{Attempt, done, fails, relay_error, Action, then, ◌>>=◌, ◌>>◌, give}
use randevu.Local.Api.{Party, call, this, require_session}
use randevu.Local.Data.{ReceivedMessage, Randoms}
use randevu.Local.Folding.{receive}
use randevu.Local.Rooming.{Client, Clock}
use randevu.Local.Sending.{send}
use randevu.Noble.{Noble}
use randevu.Relay.Session.Data.{Batch}

module _ {W : Type 0} (clock : Clock W) where
  -- The catch clause: a RelayError that is not 404 is thrown again, after all else it sleeps a little.
  unfoldable pub caught : ℕ → Attempt Batch × W → Attempt (Unit {0}) × W
  caught remaining (done b, w) = (done tt, w)
  caught remaining (fails (relay_error n code), w) =
      if n == 404
      then (done tt, clock.sleep (min 1500 remaining) w)
      else (fails (relay_error n code), w)
  caught remaining (fails e, w) = (done tt, clock.sleep (min 1500 remaining) w)

  -- const remaining = deadline - Date.now()
  abbrev pub remaining : ℕ → Party W → ℕ
  remaining deadline s = deadline - clock.now s.world

  abbrev pub is_late : ℕ → Party W → Bool
  is_late deadline s = leb deadline (clock.now s.world)

  module _ (noble : Noble) (client : Client W) where
    -- The relay's long poll, with the seconds that are left, and fifty at most.
    unfoldable pub poll : Str → ℕ → Action (Party W) (Unit {0})
    unfolding caught
    poll session_id left = do
      me ← this
      call (λ w.
          caught left (client.wait session_id me.fetched_seq (min 50 ((left + 999) / 1000)) w))

    -- What a round does with what it received: `rest` is the next round.
    abbrev pub answered :
        Str
        → ℕ
        → Action (Party W) (Option (List ReceivedMessage))
        → List ReceivedMessage
        → Action (Party W) (Option (List ReceivedMessage))
    unfolding poll
    answered session_id deadline rest (m ∷ ms) s = (done (some (m ∷ ms)), s)
    answered session_id deadline rest [] s =
        if is_late deadline s
        then (done (some []), s)
        else (then) (λ u. rest) (poll session_id (remaining deadline s) s)

    unfoldable pub wait_loop :
        (ℕ → Randoms) → Str → ℕ → ℕ → Action (Party W) (Option (List ReceivedMessage))
    unfolding answered
    wait_loop rand session_id deadline zero = give none
    wait_loop rand session_id deadline (suc fuel) = do
      messages ← receive noble client.api (rand fuel)
      answered session_id deadline (wait_loop rand session_id deadline fuel) messages

    unfoldable pub wait_for_message :
        (ℕ → Randoms) → ℕ → ℕ → Action (Party W) (Option (List ReceivedMessage))
    unfolding wait_loop
    wait_for_message rand fuel timeout_ms = do
      session_id ← require_session
      λ s. wait_loop rand session_id (clock.now s.world + timeout_ms) fuel s

    unfoldable pub send_and_wait :
        (ℕ → Randoms) → ℕ → Str → Str → ℕ → Action (Party W) (ℕ × Option (List ReceivedMessage))
    unfolding wait_for_message
    send_and_wait rand fuel body type timeout_ms = do
      seq ← send noble client.api (rand fuel) body type none
      reply ← wait_for_message rand fuel timeout_ms
      give (seq, reply)
