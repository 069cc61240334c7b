-- ===== src/Local/Rooming/Pinned.antt =====
-- What a member that joined has pinned, whichever relay it talks to.
use randevu.Base.{true, Option, none, some, Str, ◌≡◌, ap, sym, ◌∙◌, subst}
use randevu.Base.Outcome.{Outcome, returns, throws}
use randevu.Core.Invite.{Invite, parse_invite}
use randevu.Local.Action.{
  require, or_foreign, Attempt, done, then-done, or_foreign-done, require-done, same_state,
}
use randevu.Local.Api.{RelayApi, Party, call, call-done}
use randevu.Local.Data.{Local, MemberDto, member}
use randevu.Local.Keys.{
  cache, cache_into, dtos, find_dto, fingerprint_is, join_session, of_outcome, of_found, self_dto,
}
use randevu.Noble.{Noble}
use randevu.Relay.Session.Data.{JoinResult}

pub of_outcome-done {ℓ} :
    {S : Type 0} {A : Type ℓ} {a : A} {s s' : S} (o : Outcome A)
    → of_outcome o s ≡ (done a, s')
    → (o ≡ returns a) × (s ≡ s')
of_outcome-done (returns a) h = (cc h, cc h)
of_outcome-done (throws e) h = cc h

of_found-done {ℓ} :
    {S : Type 0} {A : Type ℓ} {a : A} {s s' : S} (m : Str) (o : Option A)
    → of_found m o s ≡ (done a, s')
    → (o ≡ some a) × (s ≡ s')
of_found-done m none h = cc h
of_found-done m (some a) h = (cc h, cc h)

-- The member has the invite's session and holder. It has asked the relay to join with the invite's
-- token, and the answer lists the holder with a key that the fingerprint is the hash of; the members of
-- that answer are the ones that are cached.
pub record IsPinned {W : Type 0} (noble : Noble) (api : RelayApi W) (s s' : Party W)
    (invite : Invite) : Type 0 where
  pub session : s'.me.session_id ≡ some invite.session_id
  pub pinned : s'.me.creator_fingerprint ≡ invite.fingerprint
  pub role : s'.me.role ≡ some member
  pub answer : JoinResult
  pub answered :
      api.join_session invite.session_id
        (record { join_token = invite.join_token; member = self_dto noble s.me })
        s.world
      ≡ (done answer, s'.world)
  pub cached : s'.me.members_by_id ≡ cache_into s.me.members_by_id (dtos answer.members)
  pub holder : MemberDto
  pub found : find_dto invite.fingerprint (dtos answer.members) ≡ some holder
  pub genuine :
      fingerprint_is noble invite.fingerprint (noble.hex_to_bytes holder.identity_pub) ≡ some true

-- The object as `joinSession` sets it before it calls the relay.
abbrev bound : Local → Invite → Local
bound me invite = record me {
  session_id = some invite.session_id;
  role = some member;
  creator_fingerprint = invite.fingerprint;
}

module _ {W : Type 0} (noble : Noble) (api : RelayApi W) where
  abbrev ask : Invite → Party W → Attempt JoinResult × Party W
  ask invite s =
      call
        (api.join_session invite.session_id
          (record { join_token = invite.join_token; member = self_dto noble (bound s.me invite) }))
        (record { me = bound s.me invite; world = s.world })

  -- What the relay's answer leaves of the object: its last steps in one.
  answer-IsPinned :
      (s : Party W) (invite : Invite) (res : JoinResult) (s₁ s₅ s' : Party W) (holder : MemberDto)
      → ask invite s ≡ (done res, s₁)
      → record { me = record s₁.me { epoch = res.epoch }; world = s₁.world } ≡ s₅
      → record { me = cache (dtos res.members) s₅.me; world = s₅.world } ≡ s'
      → find_dto invite.fingerprint (dtos res.members) ≡ some holder
      → fingerprint_is noble invite.fingerprint (noble.hex_to_bytes holder.identity_pub) ≡ some true
      → IsPinned noble api s s' invite
  unfolding cache self_dto
  answer-IsPinned s invite res s₁ s₅ s' holder got m l found genuine =
      let (answered, e) = call-done (bound s.me invite) _ got in
      record {
        session =
            ap (λ (p : Party W). p.me.session_id) (sym l)
            ∙ ap (λ (p : Party W). p.me.session_id) (sym m)
            ∙ ap (λ (m : Local). m.session_id) (sym e);
        pinned =
            ap (λ (p : Party W). p.me.creator_fingerprint) (sym l)
            ∙ ap (λ (p : Party W). p.me.creator_fingerprint) (sym m)
            ∙ ap (λ (m : Local). m.creator_fingerprint) (sym e);
        role =
            ap (λ (p : Party W). p.me.role) (sym l)
            ∙ ap (λ (p : Party W). p.me.role) (sym m)
            ∙ ap (λ (m : Local). m.role) (sym e);
        answer = res;
        answered =
            answered
            ∙ ap (λ (p : Party W). (done res, p.world)) m
            ∙ ap (λ (p : Party W). (done res, p.world)) l;
        cached =
            ap (λ (p : Party W). p.me.members_by_id) (sym l)
            ∙ ap (λ (p : Party W). cache_into p.me.members_by_id (dtos res.members)) (sym m)
            ∙ ap (λ (m : Local). cache_into m.members_by_id (dtos res.members)) (sym e);
        holder = holder;
        found = found;
        genuine = genuine;
      }

  pub join_session-IsPinned :
      (input : Str) (s s' : Party W)
      → join_session noble api input s ≡ (done tt, s')
      → (invite : Invite) × (parse_invite input ≡ returns invite) × IsPinned noble api s s' invite
  unfolding join_session cache
  join_session-IsPinned input s s' h =
      let (invite, (s₀, (got₀, h₀))) = then-done (of_outcome (parse_invite input) s) _ h in
      let (parsed, e₀) = of_outcome-done (parse_invite input) got₀ in
      let (res, (s₁, (got₁, h₁))) = then-done (ask invite s₀) _ h₀ in
      let s₂ : Party W = record { me = record s₁.me { epoch = res.epoch }; world = s₁.world } in
      let (holder, (s₃, (got₂, h₂))) =
        then-done (of_found _ (find_dto invite.fingerprint (dtos res.members)) s₂) _ h₁ in
      let (found, e₂) = of_found-done _ (find_dto invite.fingerprint (dtos res.members)) got₂ in
      let key = fingerprint_is noble invite.fingerprint (noble.hex_to_bytes holder.identity_pub) in
      let (genuine, (s₄, (got₃, h₃))) = then-done (or_foreign key s₃) _ h₂ in
      let (hashed, e₃) = or_foreign-done key got₃ in
      let (u, (s₅, (got₄, h₄))) = then-done (require genuine _ s₄) _ h₃ in
      let (agrees, e₄) = require-done genuine _ got₄ in
      (
        invite,
        parsed,
        subst (λ p. IsPinned noble api p s' invite) (sym e₀)
            (answer-IsPinned s₀ invite res s₁ s₅ s' holder got₁ (e₂ ∙ e₃ ∙ e₄) (same_state h₄) found
              (hashed ∙ ap some agrees)),
      )
