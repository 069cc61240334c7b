-- ===== src/Local/Keys/Holder.antt =====
-- Whose group key a member takes.
use randevu.Base.{
  ℕ, Bool, true, false, not, Option, none, some, Str, text, ◌≡◌, refl, sym, ap, ◌∙◌, subst,
}
use mathlib.Core.Path.{subst₂}
use randevu.Noble.{Noble, Bytes}
use randevu.Core.SealedBox.{unwrap_group_key}
use randevu.Core.GroupKey.{verify_group_key}
use randevu.Relay.Store.{Store, get}
use randevu.Relay.Session.Data.{StoredWrappedKey, Status}
use randevu.Local.Action.{
  done, then-done, or_foreign-done, require-done, same_state, ◌>>=◌, ◌>>◌, give, or_foreign,
  require,
}
use randevu.Local.Data.{Local, MemberDto}
use randevu.Local.Api.{RelayApi, Party, call, call-done, require_session, session-done}
use randevu.Local.Keys.{
  is_unexpected, of_found, resolve_holder, fetch_group_key, sync_group_key, cache, cache_into, dtos,
}

-- A group key that is signed, for its session and epoch, with the key cached for the holder, who is
-- the one pinned from the invite.
pub record IsHeld (noble : Noble) (fingerprint : Str) (members : Store MemberDto) (session_id : Str)
    (epoch : ℕ) (creator_id : Str) (entry : StoredWrappedKey) (group_key : Bytes) : Type 0 where
  pub expected : is_unexpected fingerprint creator_id ≡ false
  pub holder : MemberDto
  pub cached : get members creator_id ≡ some holder
  pub identity_pub : Bytes
  pub decoded : noble.hex_to_bytes holder.identity_pub ≡ some identity_pub
  pub signed :
      verify_group_key noble session_id epoch group_key entry.commitment entry.signature
        identity_pub
      ≡ true

-- A group key that the relay's answer holds, wrapped to the member who asked: the call takes the
-- relay's world from the first to the second.
pub record IsFetched {W : Type 0} (noble : Noble) (api : RelayApi W) (me : Local)
    (members : Store MemberDto) (before after : W) (session_id : Str) (epoch : ℕ) (creator_id : Str)
    (group_key : Bytes) : Type 0 where
  pub entry : StoredWrappedKey
  pub answered : api.get_key session_id epoch me.member_id before ≡ (done entry, after)
  pub wrapped : Bytes
  pub unhexed : noble.hex_to_bytes entry.wrapped_key ≡ some wrapped
  pub opened : unwrap_group_key noble wrapped me.agreement ≡ some group_key
  pub held : IsHeld noble me.creator_fingerprint members session_id epoch creator_id entry group_key

-- The member list of a status, over the members that are cached.
abbrev pub listed_by : Status → Local → Store MemberDto
unfolding cache_into
listed_by status me = cache_into me.members_by_id (dtos status.members)

-- The object has taken its group key from its relay: what the relay answers to the status call names
-- the epoch and the holder, and its answer to the next call holds the key.
pub record IsTaken {W : Type 0} (noble : Noble) (api : RelayApi W) (s s' : Party W) : Type 0 where
  pub session_id : Str
  pub joined : s.me.session_id ≡ some session_id
  pub status : Status
  pub between : W
  pub asked : api.status session_id s.world ≡ (done status, between)
  pub group_key : Bytes
  pub kept : s'.me.group_key ≡ some group_key
  pub fetched :
      IsFetched noble api s.me
        (listed_by status s.me)
        between
        s'.world
        session_id
        status.epoch
        status.creator_id
        group_key

of_found-done {ℓ} :
    {S : Type 0} {A : Type ℓ} {a : A} {s s' : S} (m : Str) (o : Option A)
    → of_found m o s ≡ (done a, s')
    → (o ≡ some a) × (s ≡ s')
of_found-done m none h = cc h
of_found-done m (some a) h = (cc h, cc h)

not-true : (b : Bool) → not b ≡ true → b ≡ false
not-true false h = refl
not-true true h = cc h

module _ {W : Type 0} (noble : Noble) (api : RelayApi W) where
  resolve_holder-done :
      (creator_id : Str) (s s' : Party W) (holder : MemberDto)
      → resolve_holder noble api creator_id s ≡ (done holder, s')
      → (is_unexpected s.me.creator_fingerprint creator_id ≡ false)
        × ((get s.me.members_by_id creator_id ≡ some holder) × (s ≡ s'))
  unfolding resolve_holder
  resolve_holder-done creator_id s s' holder h =
      let unexpected = is_unexpected s.me.creator_fingerprint creator_id in
      let (u, (s₁, (got, h₁))) =
        then-done
          (require (not unexpected)
            (text "relay named an unexpected key-holder — possible substitution") s)
          _ h in
      let (expected, e₁) = require-done (not unexpected) _ got in
      let (cached, e₂) = of_found-done _ (get s.me.members_by_id creator_id) h₁ in
      (not-true unexpected expected, (cached, e₁ ∙ e₂))

  -- The second half of a fetch: whose signature the opened key carries.
  key_from_holder :
      (session_id : Str) (epoch : ℕ) (creator_id : Str) (entry : StoredWrappedKey) (k : Bytes)
      (s s' : Party W) (group_key : Bytes)
      → (do
        holder ← resolve_holder noble api creator_id
        identity_pub ← or_foreign (noble.hex_to_bytes holder.identity_pub)
        require
            (verify_group_key noble session_id epoch k entry.commitment entry.signature
              identity_pub)
            (text "group key failed holder verification — possible relay/member substitution")
        give k)
          s
        ≡ (done group_key, s')
      → (k ≡ group_key)
        × ((s ≡ s')
            × IsHeld noble s.me.creator_fingerprint s.me.members_by_id session_id epoch creator_id
                entry k)
  key_from_holder session_id epoch creator_id entry k s s' group_key h =
      let (holder, (s₁, (got, h₁))) = then-done (resolve_holder noble api creator_id s) _ h in
      let (expected, (cached, e₁)) = resolve_holder-done creator_id s s₁ holder got in
      let (identity_pub, (s₂, (got₂, h₂))) =
        then-done (or_foreign (noble.hex_to_bytes holder.identity_pub) s₁) _ h₁ in
      let (decoded, e₂) = or_foreign-done (noble.hex_to_bytes holder.identity_pub) got₂ in
      let test =
        verify_group_key noble session_id epoch k entry.commitment entry.signature identity_pub in
      let (u, (s₃, (got₃, h₃))) =
        then-done
          (require test
            (text "group key failed holder verification — possible relay/member substitution") s₂)
          _ h₂ in
      let (signed, e₃) = require-done test _ got₃ in
      let e₄ : s₃ ≡ s' = cc h₃ in
      (
        cc h₃,
        (
          e₁ ∙ e₂ ∙ e₃ ∙ e₄,
          record {
            expected = expected;
            holder = holder;
            cached = cached;
            identity_pub = identity_pub;
            decoded = decoded;
            signed = signed;
          },
        ),
      )

  -- A fetched key is held by the member cached for the holder; nothing of the object is changed.
  pub fetch_group_key-IsFetched :
      (session_id : Str) (epoch : ℕ) (creator_id : Str) (s s' : Party W) (group_key : Bytes)
      → fetch_group_key noble api session_id epoch creator_id s ≡ (done group_key, s')
      → (s.me ≡ s'.me)
        × IsFetched noble api s.me s.me.members_by_id s.world s'.world session_id epoch creator_id
            group_key
  unfolding fetch_group_key
  fetch_group_key-IsFetched session_id epoch creator_id s s' group_key h =
      let (entry, (s₁, (got, h₁))) =
        then-done (call (api.get_key session_id epoch s.me.member_id) s) _ h in
      let (answered, me₁) =
        call-done s.me (api.get_key session_id epoch s.me.member_id s.world) got in
      let (b, (s₂, (got₂, h₂))) =
        then-done (or_foreign (noble.hex_to_bytes entry.wrapped_key) s₁) _ h₁ in
      let (hex, e₂) = or_foreign-done (noble.hex_to_bytes entry.wrapped_key) got₂ in
      let (k, (s₃, (got₃, h₃))) =
        then-done (or_foreign (unwrap_group_key noble b s.me.agreement) s₂) _ h₂ in
      let (opened, e₃) = or_foreign-done (unwrap_group_key noble b s.me.agreement) got₃ in
      let (key, (e₄, held)) =
        key_from_holder session_id epoch creator_id entry k s₃ s' group_key h₃ in
      let me₃ : s.me ≡ s₃.me = me₁ ∙ ap (λ (p : Party W). p.me) (e₂ ∙ e₃) in
      (
        me₃ ∙ ap (λ (p : Party W). p.me) e₄,
        record {
          entry = entry;
          answered = answered ∙ ap (λ (p : Party W). (done entry, p.world)) (e₂ ∙ e₃ ∙ e₄);
          wrapped = b;
          unhexed = hex;
          opened = opened ∙ ap some key;
          held =
              subst₂
                (λ (m : Local) g.
                  IsHeld noble m.creator_fingerprint m.members_by_id session_id epoch creator_id
                    entry g)
                (sym me₃) key held;
        },
      )

  -- A fetch reads of the object no more than its name, its agreement key and its pinned holder.
  pub moved-IsFetched :
      {me me' : Local} {members : Store MemberDto} {w w' : W} {id : Str} {epoch : ℕ}
      {creator_id : Str} {group_key : Bytes}
      → me.member_id ≡ me'.member_id
      → me.agreement ≡ me'.agreement
      → me.creator_fingerprint ≡ me'.creator_fingerprint
      → IsFetched noble api me members w w' id epoch creator_id group_key
      → IsFetched noble api me' members w w' id epoch creator_id group_key
  moved-IsFetched {members} {w} {w'} {id} {epoch} {creator_id} {group_key} e f g h = record {
    entry = h.entry;
    answered = ap (λ m. api.get_key id epoch m w) (sym e) ∙ h.answered;
    wrapped = h.wrapped;
    unhexed = h.unhexed;
    opened = ap (unwrap_group_key noble h.wrapped) (sym f) ∙ h.opened;
    held = subst (λ c. IsHeld noble c members id epoch creator_id h.entry group_key) g h.held;
  }

  -- The object as the status leaves it, before the key is fetched.
  abbrev refreshed : Local → Status → Local
  refreshed me status = cache (dtos status.members) (record me { epoch = status.epoch })

  -- `syncGroupKey` that returns holds the key that the relay gave for the epoch of its status: opened
  -- with the member's own key, and signed with the identity key cached for the holder whom the status
  -- names, once its member list is cached; that holder is the pinned one, where one is pinned.
  pub sync_group_key-IsHeld :
      (s s' : Party W) → sync_group_key noble api s ≡ (done tt, s') → IsTaken noble api s s'
  unfolding sync_group_key cache
  sync_group_key-IsHeld s s' h =
      let (id, (s₀, (got₀, h₀))) = then-done (require_session s) _ h in
      let (joined, e₀) = session-done s.me.session_id got₀ in
      let (status, (s₁, (got, h₁))) = then-done (call (api.status id) s₀) _ h₀ in
      let (asked, me₁) = call-done s₀.me (api.status id s₀.world) got in
      let s₂ : Party W = record { me = refreshed s₁.me status; world = s₁.world } in
      let (group_key, (s₃, (got₂, h₂))) =
        then-done (fetch_group_key noble api id status.epoch status.creator_id s₂) _ h₁ in
      let (me₂, fetched) =
        fetch_group_key-IsFetched id status.epoch status.creator_id s₂ s₃ group_key got₂ in
      let here : s.me ≡ s₁.me = ap (λ (p : Party W). p.me) e₀ ∙ me₁ in
      record {
        session_id = id;
        joined = joined;
        status = status;
        between = s₁.world;
        asked = ap (λ (p : Party W). api.status id p.world) e₀ ∙ asked;
        group_key = group_key;
        kept = ap (λ (p : Party W). p.me.group_key) (sym (same_state h₂));
        fetched =
            subst₂
              (λ m w.
                IsFetched noble api m (listed_by status m) s₁.world w id status.epoch
                  status.creator_id group_key)
              (sym here) (ap (λ (p : Party W). p.world) (same_state h₂))
              (moved-IsFetched refl refl refl fetched);
      }
