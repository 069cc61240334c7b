-- ===== src/Local/Waiting/Forward.antt =====
-- No call of a member turns the clock back, where none of its relay does.
use randevu.Base.{
  ℕ, ◌≤◌, ◌<◌, Bool, true, false, not, Option, none, some, List, [], ◌∷◌, Str, ◌==◌, if◌then◌else◌,
  arith, Bool-cases, is_some, ◌||◌, inl, inr,
}
use randevu.Local.Action.{
  Attempt, done, fails, foreign, error, relay_error, Action, then, or_foreign, require,
}
use randevu.Local.Api.{Party, call, session_or_throw}
use randevu.Local.Data.{Randoms, MemberDto}
use randevu.Local.Folding.{receive, pull}
use randevu.Local.Keys.{
  is_unexpected, wraps_for, of_found, not_posted, resolve_holder, fetch_group_key, post_group_key,
  renew_group_key, refresh_group_key, ensure_keys, same_epoch, is_creator, dtos, cache,
}
use randevu.Local.Rooming.{Client, Clock}
use randevu.Noble.{Noble, Bytes}
use randevu.Core.SealedBox.{unwrap_group_key}
use randevu.Core.GroupKey.{verify_group_key}
use randevu.Relay.Store.{get}
use randevu.Relay.Session.Data.{KeysInput, Status}

module _ {W : Type 0} (clock : Clock W) (client : Client W) where
  -- No call turns the clock back; a long poll and a sleep take a tick at least.
  pub record IsTicking : Type 0 where
    pub status : (id : Str) (w : W) → clock.now w ≤ clock.now (client.api.status id w).1
    pub get_key :
        (id : Str) (epoch : ℕ) (m : Str) (w : W)
        → clock.now w ≤ clock.now (client.api.get_key id epoch m w).1
    pub post_keys :
        (id : Str) (input : KeysInput) (w : W)
        → clock.now w ≤ clock.now (client.api.post_keys id input w).1
    pub get_messages :
        (id : Str) (after : ℕ) (w : W)
        → clock.now w ≤ clock.now (client.api.get_messages id after w).1
    pub wait :
        (id : Str) (after seconds : ℕ) (w : W)
        → clock.now w < clock.now (client.wait id after seconds w).1
    pub sleep : (n : ℕ) (w : W) → clock.now w ≤ clock.now (clock.sleep n w)

module _ {W : Type 0} (clock : Clock W) where
  abbrev pub time {ℓ} : {A : Type ℓ} → Attempt A × Party W → ℕ
  time r = clock.now r.1.world

  abbrev pub Forward {ℓ} : {A : Type ℓ} → Action (Party W) A → Type 0
  Forward m = (s : Party W) → clock.now s.world ≤ time (m s)

  then-later {ℓ κ} :
      {A : Type ℓ} {B : Type κ} (n : ℕ) (r : Attempt A × Party W) (f : A → Action (Party W) B)
      → n ≤ time r
      → ((a : A) → Forward (f a))
      → n ≤ time ((then) f r)
  then-later n (done a, s) f h k = omega (arith, h, k a s)
  then-later n (fails e, s) f h k = h

  stays : (n : ℕ) → n ≤ n
  stays n = omega arith

  module _ {ℓ κ} {A : Type ℓ} {B : Type κ} (s : Party W) (f : A → Action (Party W) B) where
    after_call :
        (g : W → Attempt A × W)
        → clock.now s.world ≤ clock.now (g s.world).1
        → ((a : A) → Forward (f a))
        → clock.now s.world ≤ time ((then) f (call g s))
    after_call g h k = then-later (clock.now s.world) (call g s) f h k

    after_foreign :
        (o : Option A)
        → ((a : A) → Forward (f a))
        → clock.now s.world ≤ time ((then) f (or_foreign o s))
    after_foreign none k = stays _
    after_foreign (some a) k = k a s

    after_found :
        (m : Str) (o : Option A)
        → ((a : A) → Forward (f a))
        → clock.now s.world ≤ time ((then) f (of_found m o s))
    after_found m none k = stays _
    after_found m (some a) k = k a s

  after_session {κ} :
      {B : Type κ} (s : Party W) (f : Str → Action (Party W) B) (o : Option Str)
      → ((a : Str) → Forward (f a))
      → clock.now s.world ≤ time ((then) f (session_or_throw o s))
  after_session s f none k = stays _
  after_session s f (some []) k = stays _
  after_session s f (some (c ∷ id)) k = k (c ∷ id) s

  after_require {κ} :
      {B : Type κ} (s : Party W) (f : Unit {0} → Action (Party W) B) (b : Bool) (m : Str)
      → ((a : Unit {0}) → Forward (f a))
      → clock.now s.world ≤ time ((then) f (require b m s))
  after_require s f true m k = k tt s
  after_require s f false m k = stays _

  either-later {ℓ} :
      {A : Type ℓ} (b : Bool) (m n : Action (Party W) A)
      → Forward m
      → Forward n
      → Forward (if b then m else n)
  either-later true m n h k = h
  either-later false m n h k = k

  found-later {ℓ} :
      {A : Type ℓ} (s : Party W) (m : Str) (o : Option A)
      → clock.now s.world ≤ time (of_found m o s)
  found-later s m none = stays _
  found-later s m (some a) = stays _

  module _ (client : Client W) (ticking : IsTicking clock client) (noble : Noble) where
    resolve_holder-Forward : (id : Str) → Forward (resolve_holder noble client.api id)
    unfolding resolve_holder
    resolve_holder-Forward id s =
        after_require s _ (not (is_unexpected s.me.creator_fingerprint id)) _
          λ u t. found-later t _ (get s.me.members_by_id id)

    fetch-Forward :
        (id : Str) (epoch : ℕ) (holder : Str)
        → Forward (fetch_group_key noble client.api id epoch holder)
    unfolding fetch_group_key
    fetch-Forward id epoch holder s =
        after_call s _ (client.api.get_key id epoch s.me.member_id)
          (ticking.get_key id epoch s.me.member_id s.world)
          λ entry t. after_foreign t _ (noble.hex_to_bytes entry.wrapped_key) λ wrapped t.
            after_foreign t _ (unwrap_group_key noble wrapped s.me.agreement) λ key t.
              then-later (clock.now t.world) (resolve_holder noble client.api holder t) _
                (resolve_holder-Forward holder t)
                λ dto t. after_foreign t _ (noble.hex_to_bytes dto.identity_pub) λ key_pub t.
                  after_require t _
                    (verify_group_key noble id epoch key entry.commitment entry.signature key_pub) _
                    λ u t. stays _

    post-Forward :
        (rand : Randoms) (id : Str) (epoch : ℕ) (members : List MemberDto)
        → Forward (post_group_key noble client.api rand id epoch members)
    unfolding post_group_key
    post-Forward rand id epoch members s =
        after_foreign s _ (wraps_for noble rand.ephemeral 0 rand.group_key members) λ wraps t.
          after_call t _ (client.api.post_keys id _) (ticking.post_keys id _ t.world) λ u t. stays _

    renew-Forward :
        (rand : Randoms) (id : Str) (status : Status)
        → Forward (renew_group_key noble client.api rand id status)
    unfolding renew_group_key
    renew-Forward rand id status s =
        elim (Bool-cases
          (not (is_some s.me.group_key) || not (same_epoch s.me.established_epoch status.epoch))) [
            | inl stale ↦ rw stale (
                then-later (clock.now s.world)
                  (post_group_key noble client.api rand id status.epoch (dtos status.members)
                    (record s { me = record s.me { epoch = status.epoch } }))
                  _ (post-Forward rand id status.epoch (dtos status.members) _) λ u t. stays _)
            | inr fresh ↦ rw fresh (stays _)
          ]

    not_posted-later :
        (n : ℕ) (r : Attempt (Unit {0}) × Party W) → n ≤ time r → n ≤ time (not_posted r)
    not_posted-later n (done u, s) h = h
    not_posted-later n (fails (relay_error m code), s) h = elim (Bool-cases (m == 404)) [
      | inl absent ↦ rw absent h
      | inr other ↦ rw other h
    ]
    not_posted-later n (fails foreign, s) h = h
    not_posted-later n (fails (error m), s) h = h

    not_posted-then :
        (n : ℕ) (r : Attempt Bytes × Party W) (f : Bytes → Action (Party W) (Unit {0}))
        → n ≤ time r
        → ((a : Bytes) → Forward (f a))
        → n ≤ time (not_posted ((then) f r))
    not_posted-then n r f h k = not_posted-later n ((then) f r) (then-later n r f h k)

    refresh-Forward :
        (id : Str) (status : Status) → Forward (refresh_group_key noble client.api id status)
    unfolding refresh_group_key
    refresh-Forward id status s =
        elim (Bool-cases (not (is_some s.me.group_key) || not (status.epoch == s.me.epoch))) [
          | inl stale ↦ rw stale (
              not_posted-then (clock.now s.world)
                (fetch_group_key noble client.api id status.epoch status.creator_id s) _
                (fetch-Forward id status.epoch status.creator_id s) λ key t. stays _)
          | inr fresh ↦ rw fresh (stays _)
        ]

    ensure-Forward : (rand : Randoms) → Forward (ensure_keys noble client.api rand)
    unfolding ensure_keys
    ensure-Forward rand s = after_session s _ s.me.session_id λ id s.
        after_call s _ (client.api.status id) (ticking.status id s.world) λ status s.
          either-later (is_creator (cache (dtos status.members) s.me).role) _ _
            (renew-Forward rand id status) (refresh-Forward id status) _

    pull-Forward : Forward (pull noble client.api)
    unfolding pull
    pull-Forward s = after_session s _ s.me.session_id λ id s.
        after_call s _ (client.api.get_messages id s.me.fetched_seq)
          (ticking.get_messages id s.me.fetched_seq s.world) λ messages s. stays _

    pub receive-Forward : (rand : Randoms) → Forward (receive noble client.api rand)
    unfolding receive
    receive-Forward rand s =
        then-later (clock.now s.world) (ensure_keys noble client.api rand s) _
          (ensure-Forward rand s)
          λ u s.
            then-later (clock.now s.world) (pull noble client.api s) _ (pull-Forward s)
              λ u s. stays _
