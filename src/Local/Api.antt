-- ===== src/Local/Api.antt =====
-- What the local server calls of its relay (the methods of `RelayClient`), over a world that the calls
-- change. A relay is any such record: a theorem that assumes more of its answers
-- than their shape takes it as a hypothesis.
use randevu.Base.{◌≡◌, ap, ℕ, Option, none, some, List, [], ◌∷◌, Str, text}
use randevu.Relay.Session.Data.{
  MemberInput, MessageInput, StoredMessage, KeysInput, StoredWrappedKey, Status, InitResult,
  JoinResult, JoinInput,
}
use randevu.Local.Action.{Attempt, Action, done, fails, error, throw, give}
use randevu.Local.Data.{Local}

pub record RelayApi (W : Type 0) : Type 0 where
  pub create_session : ℕ → MemberInput → W → Attempt InitResult × W
  pub join_session : Str → JoinInput → W → Attempt JoinResult × W
  pub post_message : Str → MessageInput → W → Attempt ℕ × W
  -- the messages after a number
  pub get_messages : Str → ℕ → W → Attempt (List StoredMessage) × W
  pub post_keys : Str → KeysInput → W → Attempt (Unit {0}) × W
  pub get_key : Str → ℕ → Str → W → Attempt StoredWrappedKey × W
  pub status : Str → W → Attempt Status × W

-- The object, and the world in which its relay is.
pub record Party (W : Type 0) : Type 0 where
  pub me : Local
  pub world : W

module _ {W : Type 0} where
  abbrev with_world {ℓ} : {A : Type ℓ} → Local → Attempt A × W → Attempt A × Party W
  with_world me (a, w) = (a, record { me = me; world = w })

  -- await this.relay.…
  abbrev pub call {ℓ} : {A : Type ℓ} → (W → Attempt A × W) → Action (Party W) A
  call f = λ s. with_world s.me (f s.world)

  abbrev pub this : Action (Party W) Local
  this = λ s. (done s.me, s)

  abbrev pub set : (Local → Local) → Action (Party W) (Unit {0})
  set f = λ s. (done tt, record { me = f s.me; world = s.world })

  -- `if (!this.sessionId)`: an empty one is falsy as well
  abbrev pub session_or_throw : Option Str → Action (Party W) Str
  session_or_throw (some (c ∷ id)) = give (c ∷ id)
  session_or_throw _ = throw (error (text "no active session"))

  abbrev pub require_session : Action (Party W) Str
  require_session = λ s. session_or_throw s.me.session_id s

  -- A call of the relay that returned left the object alone.
  pub call-done {ℓ} :
      {A : Type ℓ} {a : A} {s₁ : Party W} (me : Local) (r : Attempt A × W)
      → with_world me r ≡ (done a, s₁)
      → (r ≡ (done a, s₁.world)) × (me ≡ s₁.me)
  call-done me (done a, w) h = (cc h, cc h)
  call-done me (fails e, w) h = cc h

  pub session-done :
      {id : Str} {s s₁ : Party W} (o : Option Str)
      → session_or_throw o s ≡ (done id, s₁)
      → (o ≡ some id) × (s ≡ s₁)
  session-done none h = cc h
  session-done (some []) h = cc h
  session-done (some (c ∷ id)) h = (cc h, cc h)

  pub require_session-joined :
      (s : Party W) (c : ℕ) (t : Str)
      → s.me.session_id ≡ some (c ∷ t)
      → require_session s ≡ (done (c ∷ t), s)
  require_session-joined s c t joined = ap (λ o. session_or_throw o s) joined
