-- ===== src/Local/Tools/Bounded.antt =====
-- The waiting tool of the local server answers.
use randevu.Base.{ℕ, ◌+◌, Option, none, some, List, [], ◌∷◌, Str, arith}
use randevu.Core.Credential.Values.{Texts}
use randevu.Core.Invite.Link.{Uri}
use randevu.Local.Action.{Attempt, done, fails, then, give}
use randevu.Local.Api.{Party}
use randevu.Local.Data.{ReceivedMessage, Randoms}
use randevu.Local.Rooming.{Client, Clock, Seat, with_party}
use randevu.Local.Tools.{Answer, messages_if, timeout_ms, wait_tool}
use randevu.Local.Waiting.Ending.{IsOver, wait_for_message-IsOver}
use randevu.Local.Waiting.Forward.{IsTicking}
use randevu.Local.Waiting.{wait_for_message}
use randevu.Noble.{Noble}

module _ {W N : Type 0} where
  -- The tool answered, or it threw.
  abbrev pub IsAnswered : Attempt (Option (Answer N)) × Seat W → Type 0
  IsAnswered (done none, s) = ⊥
  IsAnswered (done (some a), s) = Unit
  IsAnswered (fails e, s) = Unit

module _ {W N : Type 0} (noble : Noble) (texts : Texts N) (uri : Uri) (connect : Str → Client W)
    (clock : Clock W) where
  over-IsAnswered :
      (deadline : ℕ) (s : Seat W) (r : Attempt (Option (List ReceivedMessage)) × Party W)
      → IsOver clock deadline r
      → IsAnswered {N = N} ((then) (λ found. give (messages_if found)) (with_party s r))
  over-IsAnswered deadline s (done none, p) h = h
  over-IsAnswered deadline s (done (some []), p) h = tt
  over-IsAnswered deadline s (done (some (m ∷ ms)), p) h = tt
  over-IsAnswered deadline s (fails e, p) h = tt

  -- Whatever time it is asked to wait, the waiting tool answers or throws within 55,001 rounds, where
  -- its relay turns no clock back and each long poll takes a tick.
  pub wait_tool-IsAnswered :
      (rand : ℕ → Randoms) (seconds : ℕ) (s : Seat W)
      → IsTicking clock (connect s.endpoint)
      → IsAnswered (wait_tool noble texts uri connect clock rand 55_001 seconds s)
  unfolding wait_tool
  wait_tool-IsAnswered rand seconds s ticking =
      over-IsAnswered (clock.now s.party.world + timeout_ms seconds) s
        (wait_for_message clock noble (connect s.endpoint) rand 55_001 (timeout_ms seconds) s.party)
        (wait_for_message-IsOver clock (connect s.endpoint) ticking noble rand 55_001
          (timeout_ms seconds) s.party (omega arith))
