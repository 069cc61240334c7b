-- ===== src/Local/Keys/Converging.antt =====
-- What `ensureKeys`, which every send and receive runs first, leaves a member with.
use randevu.Base.{
  ℕ, Bool, true, false, not, ◌||◌, Option, none, some, is_some, Str, ◌==◌, ◌≡◌, refl, sym, ap, ◌∙◌,
  subst, if◌then◌else◌, ◌⊎◌, inl, inr,
}
use randevu.Noble.{Noble, Bytes}
use randevu.Core.GroupKey.{verify_group_key}
use randevu.Core.SealedBox.{unwrap_group_key}
use randevu.Relay.Store.{get}
use randevu.Relay.Session.Data.{Status}
use randevu.Local.Action.{
  Attempt, Action, done, fails, Fault, relay_error, error, foreign, then, or_foreign, require,
  then-done, same_state,
}
use randevu.Local.Data.{Local, Randoms}
use randevu.Local.Api.{RelayApi, Party, call, call-done, set, require_session, session-done}
use randevu.Local.Keys.{
  cache, dtos, set_epoch, is_creator, of_found, is_unexpected, not_posted, resolve_holder,
  fetch_group_key, refresh_group_key, renew_group_key, ensure_keys,
}
use randevu.Local.Keys.Holder.{IsFetched, IsTaken, moved-IsFetched, fetch_group_key-IsFetched}
use mathlib.Core.Path.{subst₂}

module _ {W : Type 0} where
  -- An outcome that leaves the object as it was.
  abbrev Keeps {ℓ} : {A : Type ℓ} → Local → Attempt A × Party W → Type 0
  Keeps me r = r.1.me ≡ me

  then-Keeps :
      {A B : Type 0} (me : Local) (r : Attempt A × Party W) (f : A → Action (Party W) B)
      → Keeps me r
      → ((a : A) (s : Party W) → s.me ≡ me → Keeps me (f a s))
      → Keeps me ((then) f r)
  then-Keeps me (done a, s) f h k = k a s h
  then-Keeps me (fails e, s) f h k = h

  or_foreign-Keeps :
      {A : Type 0} (me : Local) (o : Option A) (s : Party W) → s.me ≡ me → Keeps me (or_foreign o s)
  or_foreign-Keeps me none s h = h
  or_foreign-Keeps me (some a) s h = h

  of_found-Keeps :
      {A : Type 0} (me : Local) (m : Str) (o : Option A) (s : Party W)
      → s.me ≡ me
      → Keeps me (of_found m o s)
  of_found-Keeps me m none s h = h
  of_found-Keeps me m (some a) s h = h

  require-Keeps :
      (me : Local) (b : Bool) (m : Str) (s : Party W) → s.me ≡ me → Keeps me (require b m s)
  require-Keeps me true m s h = h
  require-Keeps me false m s h = h

module _ {W : Type 0} (noble : Noble) (api : RelayApi W) where
  resolve_holder-Keeps :
      (me : Local) (id : Str) (s : Party W) → s.me ≡ me → Keeps me (resolve_holder noble api id s)
  unfolding resolve_holder
  resolve_holder-Keeps me id s h =
      then-Keeps me (require (not (is_unexpected s.me.creator_fingerprint id)) _ s) _
        (require-Keeps me _ _ s h)
        (λ u s₁ h₁. of_found-Keeps me _ (get s.me.members_by_id id) s₁ h₁)

  -- Fetching a key changes nothing, whether it returns or throws.
  fetch_group_key-Keeps :
      (id : Str) (epoch : ℕ) (creator_id : Str) (s : Party W)
      → Keeps s.me (fetch_group_key noble api id epoch creator_id s)
  unfolding fetch_group_key
  fetch_group_key-Keeps id epoch creator_id s =
      then-Keeps s.me (call (api.get_key id epoch s.me.member_id) s) _ refl (λ entry s₁ h₁.
        then-Keeps s.me (or_foreign (noble.hex_to_bytes entry.wrapped_key) s₁) _
          (or_foreign-Keeps s.me _ s₁ h₁)
          (λ b s₂ h₂.
            then-Keeps s.me (or_foreign (unwrap_group_key noble b s.me.agreement) s₂) _
              (or_foreign-Keeps s.me _ s₂ h₂)
              (λ k s₃ h₃.
                then-Keeps s.me (resolve_holder noble api creator_id s₃) _
                  (resolve_holder-Keeps s.me creator_id s₃ h₃)
                  (λ holder s₄ h₄.
                    then-Keeps s.me (or_foreign (noble.hex_to_bytes holder.identity_pub) s₄) _
                      (or_foreign-Keeps s.me _ s₄ h₄)
                      (λ pub_key s₅ h₅.
                        then-Keeps s.me
                          (require
                            (verify_group_key noble id epoch k entry.commitment entry.signature
                              pub_key)
                            _ s₅)
                          _ (require-Keeps s.me _ _ s₅ h₅) (λ u s₆ h₆. h₆))))))

  -- The object with the key that was fetched.
  abbrev taken : Status → Bytes → Action (Party W) (Unit {0})
  taken status group_key = set (λ me. record me {
    group_key = some group_key;
    group_keys = set_epoch status.epoch group_key me.group_keys;
    epoch = status.epoch;
  })

  not_posted-state :
      (x : Fault) (s₁ : Party W) (y : Bool) (s' : Party W)
      → not_posted (fails x, s₁) ≡ (done y, s')
      → s₁ ≡ s'
  not_posted-state (relay_error n code) s₁ y s' g = by_status (n == 404) g
    where
      by_status :
          (b : Bool)
          → ◌≡◌ {A = Attempt Bool × Party W}
              (if b then (done false, s₁) else (fails (relay_error n code), s₁))
              (done y, s')
          → s₁ ≡ s'
      by_status true g = same_state g
      by_status false g = cc g
  not_posted-state (error m) s₁ y s' g = cc g
  not_posted-state foreign s₁ y s' g = cc g

  -- The key is the one that was there, or one that was taken from the relay.
  abbrev pub Converged : Party W → Party W → Type 0
  Converged s s' = (s'.me.group_key ≡ s.me.group_key) ⊎ IsTaken noble api s s'

  refresh_group_key-Converged :
      (id : Str) (status : Status) (s₀ s s' : Party W) (b : Bool)
      → s₀.me.session_id ≡ some id
      → api.status id s₀.world ≡ (done status, s.world)
      → cache (dtos status.members) s₀.me ≡ s.me
      → refresh_group_key noble api id status s ≡ (done b, s')
      → Converged s₀ s'
  unfolding refresh_group_key cache
  refresh_group_key-Converged id status s₀ s s' b joined asked cached h =
      by_need (not (is_some s.me.group_key) || not (status.epoch == s.me.epoch))
        (is_some s.me.group_key) h
    where
      old : s.me.group_key ≡ s₀.me.group_key
      old = ap (λ (l : Local). l.group_key) (sym cached)

      by_answer :
          (y : Bool) (r : Attempt Bytes × Party W)
          → fetch_group_key noble api id status.epoch status.creator_id s ≡ r
          → not_posted ((then) (taken status) r) ≡ (done y, s')
          → Converged s₀ s'
      by_answer y (done k, s₁) e g =
          let (same, fetched) =
            fetch_group_key-IsFetched noble api id status.epoch status.creator_id s s₁ k e in
          inr (record {
            session_id = id;
            joined = joined;
            status = status;
            between = s.world;
            asked = asked;
            group_key = k;
            kept = ap (λ (p : Party W). p.me.group_key) (sym (same_state g));
            fetched = moved-IsFetched noble api refl refl refl (
                subst₂
                  (λ m w.
                    IsFetched noble api m m.members_by_id s.world w id status.epoch
                      status.creator_id k)
                  (sym cached) (ap (λ (p : Party W). p.world) (same_state g)) fetched);
          })
      by_answer y (fails x, s₁) e g =
          let kept : s₁.me ≡ s.me =
            subst (Keeps s.me) e (fetch_group_key-Keeps id status.epoch status.creator_id s) in
          inl (
            ap (λ (p : Party W). p.me.group_key) (sym (not_posted-state x s₁ y s' g))
            ∙ ap (λ (l : Local). l.group_key) kept
            ∙ old)

      by_need :
          (need x : Bool) {y : Bool}
          → (if need
              then not_posted (
                  (then)
                    (taken status)
                    (fetch_group_key noble api id status.epoch status.creator_id s))
              else (done x, s))
            ≡ (done y, s')
          → Converged s₀ s'
      by_need true x {y} g =
          by_answer y (fetch_group_key noble api id status.epoch status.creator_id s) refl g
      by_need false x g = inl (ap (λ (p : Party W). p.me.group_key) (sym (same_state g)) ∙ old)

  -- `ensureKeys` of a member that returns leaves the group key that was there, or the key that the relay
  -- gave for the epoch of its status: opened with the member's own key, and signed with the identity key
  -- cached for the holder whom the status names, once its member list is cached; that holder is the
  -- pinned one, where one is pinned.
  pub ensure_keys-Converged :
      (rand : Randoms) (s s' : Party W) (b : Bool)
      → is_creator s.me.role ≡ false
      → ensure_keys noble api rand s ≡ (done b, s')
      → Converged s s'
  unfolding ensure_keys cache
  ensure_keys-Converged rand s s' b member h =
      let (id, (s₁, (got, h₁))) = then-done (require_session s) _ h in
      let (joined, e₁) = session-done s.me.session_id got in
      let (status, (s₂, (got₂, h₂))) = then-done (call (api.status id) s₁) _ h₁ in
      let (asked, me₂) = call-done s₁.me (api.status id s₁.world) got₂ in
      let me₁ : s.me ≡ s₂.me = ap (λ (p : Party W). p.me) e₁ ∙ me₂ in
      let cached : cache (dtos status.members) s.me ≡ cache (dtos status.members) s₂.me =
        ap (cache (dtos status.members)) me₁ in
      let other : is_creator s₂.me.role ≡ false =
        ap (λ (l : Local). is_creator l.role) (sym me₁) ∙ member in
      let s₃ : Party W = record { me = cache (dtos status.members) s₂.me; world = s₂.world } in
      let there : api.status id s.world ≡ (done status, s₂.world) =
        ap (λ (p : Party W). api.status id p.world) e₁ ∙ asked in
      refresh_group_key-Converged id status s s₃ s' b joined there cached (
        branch (renew_group_key noble api rand id status) (refresh_group_key noble api id status) s₃
          other h₂)
    where
      branch :
          {c : Bool} (x y : Action (Party W) Bool) (p : Party W) {z : Attempt Bool × Party W}
          → c ≡ false
          → (if c then x else y) p ≡ z
          → y p ≡ z
      branch {c = true} x y p e g = cc e
      branch {c = false} x y p e g = g
