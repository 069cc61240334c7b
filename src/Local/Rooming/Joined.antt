-- ===== src/Local/Rooming/Joined.antt =====
-- What `joinRoom` of a link leaves: the link's session, relay and kind, with its holder pinned.
use mathlib.Core.List.{reverse}
use randevu.Base.{
  map, subst, not, if◌then◌else◌, Bool, true, false, some, is_some, Str, trim, str_eq, StartsSolid,
  ◌≡◌, refl, ap, sym, ◌∙◌,
}
use randevu.Base.Outcome.{returns}
use randevu.Core.Invite.{Invite, parse_invite, encode_invite}
use randevu.Core.Invite.Link.{JoinLink, Uri, parse_join_link}
use randevu.Core.Invite.Pattern.{scheme}
use randevu.Core.Invite.RoundTrip.{parse-encode}
use randevu.Core.Kinds.{or_no_text}
use randevu.Http.Client.{without_slashes}
use randevu.Local.Action.{
  then, give, ◌>>=◌, ◌>>◌, same_value, Attempt, done, fails, then-done, same_state,
}
use randevu.Local.Api.{RelayApi, Party, session-done, require_session}
use randevu.Local.Keys.{join_session, of_outcome}
use randevu.Local.Rooming.{
  Client, Seat, here, set_relay, join_with, role_for, context_for, JoinedRoom, or_text, with_party,
  read_invite, follow_link, join_room,
}
use randevu.Local.Rooming.Pinned.{of_outcome-done, IsPinned, join_session-IsPinned}
use randevu.Noble.{Noble}

module _ {W : Type 0} where
  with_party-done {ℓ} :
      {A : Type ℓ} {a : A} (s s' : Seat W) (r : Attempt A × Party W)
      → with_party s r ≡ (done a, s')
      → (r ≡ (done a, s'.party)) × (s.endpoint ≡ s'.endpoint) × (s.kind ≡ s'.kind)
  with_party-done s s' (done a, p) h = (cc h, cc h, cc h)
  with_party-done s s' (fails e, p) h = cc h

  written-done :
      (invite : Invite) (k : Str) (r : Str × Str) (t s' : Seat W)
      → StartsSolid (reverse invite.join_token)
      → (then) (λ text. give (text, k)) (of_outcome (encode_invite invite) t) ≡ (done r, s')
      → (parse_invite r.0 ≡ returns invite) × (r.1 ≡ k) × (t ≡ s')
  written-done invite k r t s' solid h =
      let (input, (s₀, (got, h₀))) = then-done (of_outcome (encode_invite invite) t) _ h in
      let (encoded, same) = of_outcome-done (encode_invite invite) got in
      let pair : (input, k) ≡ r = same_value h₀ in
      (
        ap (λ (x : Str × Str). parse_invite x.0) (sym pair)
            ∙ parse-encode invite input encoded solid,
        ap (λ (x : Str × Str). x.1) (sym pair),
        same ∙ same_state h₀,
      )

moved-IsPinned :
    {W : Type 0} (noble : Noble) (api : RelayApi W) (s s' : Party W) {p p' : Party W} {i j : Invite}
    → i ≡ j
    → p ≡ p'
    → s ≡ s'
    → IsPinned noble api s p i
    → IsPinned noble api s' p' j
moved-IsPinned noble api s s' {p} {p'} {i} {j} e f g h =
    subst (λ q. IsPinned noble api q p' j) g
      (subst (λ q. IsPinned noble api s q j) f (subst (IsPinned noble api s p) e h))

same_id : (id : Str) (i j : Invite) → i ≡ j → some id ≡ some i.session_id → id ≡ j.session_id
same_id id i j e f = cc

unfoldable pub after_link : JoinLink → Str → Str
unfolding without_slashes
after_link l endpoint =
    if not (str_eq l.relay_url endpoint) then without_slashes l.relay_url else endpoint

module _ {W : Type 0} (noble : Noble) (uri : Uri) (connect : Str → Client W) where
  -- A followed link gives its invite as a text that is read back, and moves to its relay.
  follow_link-invite :
      (link kind : Str) (l : JoinLink) (r : Str × Str) (s s' : Seat W)
      → parse_join_link uri link ≡ returns l
      → StartsSolid (reverse l.invite.join_token)
      → follow_link noble uri connect link kind s ≡ (done r, s')
      → (parse_invite r.0 ≡ returns l.invite)
        × (r.1 ≡ or_text kind (or_no_text l.kind))
        × (s'.endpoint ≡ after_link l s.endpoint)
        × (s'.party ≡ s.party)
  unfolding follow_link after_link set_relay
  follow_link-invite link kind l r s s' e solid h =
      moved (not (str_eq l.relay_url s.endpoint)) refl (
        subst
          (λ o.
            (then)
              (λ parsed. here >>= λ t.
                (if not (str_eq parsed.relay_url t.endpoint)
                  then set_relay parsed.relay_url
                  else give tt)
                >> (of_outcome (encode_invite parsed.invite) >>= λ text.
                    give (text, or_text kind (or_no_text parsed.kind))))
              (of_outcome o s)
            ≡ (done r, s'))
          e h)
    where
      moved :
          (b : Bool)
          → (not (str_eq l.relay_url s.endpoint)) ≡ b
          → (then)
              (λ u. of_outcome (encode_invite l.invite) >>= λ text.
                give (text, or_text kind (or_no_text l.kind)))
              ((if b then set_relay l.relay_url else give tt) s)
            ≡ (done r, s')
          → (parse_invite r.0 ≡ returns l.invite)
            × (r.1 ≡ or_text kind (or_no_text l.kind))
            × (s'.endpoint ≡ after_link l s.endpoint)
            × (s'.party ≡ s.party)
      moved true c g =
          let (read, named, same) =
            written-done l.invite _ r
              (record {
                party = s.party;
                endpoint = without_slashes l.relay_url;
                kind = s.kind;
                my_role = s.my_role;
              })
              s' solid g in
          (
            read,
            named,
            ap (λ (t : Seat W). t.endpoint) (sym same) ∙ rw (after_link, c) refl,
            ap (λ (t : Seat W). t.party) (sym same),
          )
      moved false c g =
          let (read, named, same) = written-done l.invite _ r s s' solid g in
          (
            read,
            named,
            ap (λ (t : Seat W). t.endpoint) (sym same) ∙ rw (after_link, c) refl,
            ap (λ (t : Seat W). t.party) (sym same),
          )

  abbrev entered : Str → Str → Seat W → JoinedRoom
  unfolding context_for
  entered id kind t = record {
    session_id = id;
    kind = kind;
    role = t.my_role;
    context = context_for kind t.my_role;
    members = map (λ m. m.0) t.party.me.members_by_id;
  }

  join_with-IsPinned :
      (input kind role : Str) (invite : Invite) (s s' : Seat W) (room : JoinedRoom)
      → parse_invite input ≡ returns invite
      → join_with noble uri connect input kind role s ≡ (done room, s')
      → IsPinned noble (connect s.endpoint).api s.party s'.party invite
        × (room.session_id ≡ invite.session_id)
        × (room.kind ≡ kind)
        × (s'.endpoint ≡ s.endpoint)
  unfolding join_with entered role_for context_for
  join_with-IsPinned input kind role invite s s' room read h =
      let (u, (s₁, (got₁, h₁))) =
        then-done (with_party s (join_session noble (connect s.endpoint).api input s.party)) _ h in
      let (joined, addr, k) = with_party-done s s₁ _ got₁ in
      let (invite', read', pinned) =
        join_session-IsPinned noble (connect s.endpoint).api input s.party s₁.party joined in
      let agrees : invite' ≡ invite = cc (read, read') in
      let s₂ : Seat W = record {
        party = s₁.party;
        endpoint = s₁.endpoint;
        kind = kind;
        my_role = or_text role (role_for kind 1);
      } in
      let (id, (s₃, (got₃, h₃))) = then-done (with_party s₂ (require_session s₂.party)) _ h₁ in
      let (required, addr₃, k₃) = with_party-done s₂ s₃ _ got₃ in
      let (has, same) = session-done s₁.party.me.session_id required in
      let room_value : entered id kind s₃ ≡ room = same_value h₃ in
      let last : s₃ ≡ s' = same_state h₃ in
      (
        moved-IsPinned noble (connect s.endpoint).api s.party s.party agrees
            (same ∙ ap (λ (t : Seat W). t.party) last) refl pinned,
        ap (λ (x : JoinedRoom). x.session_id) (sym room_value)
            ∙ same_id id invite' invite agrees (sym has ∙ pinned.session),
        ap (λ (x : JoinedRoom). x.kind) (sym room_value),
        ap (λ (t : Seat W). t.endpoint) (sym last) ∙ sym addr₃ ∙ sym addr,
      )

  -- `joinRoom` of a link that returns, in the link's kind if no other is given, has asked the relay at
  -- the link's address to join the link's session with its token; it has pinned the link's fingerprint,
  -- and the answer of that relay lists a holder whose key hashes to it. The link's token does not end in
  -- white space.
  pub join_room-IsPinned :
      (link kind role : Str) (l : JoinLink) (s s' : Seat W) (room : JoinedRoom)
      → is_some (scheme (trim link)) ≡ true
      → parse_join_link uri (trim link) ≡ returns l
      → StartsSolid (reverse l.invite.join_token)
      → join_room noble uri connect link kind role s ≡ (done room, s')
      → IsPinned noble (connect (after_link l s.endpoint)).api s.party s'.party l.invite
        × (room.session_id ≡ l.invite.session_id)
        × (room.kind ≡ or_text kind (or_no_text l.kind))
        × (s'.endpoint ≡ after_link l s.endpoint)
  unfolding join_room read_invite
  join_room-IsPinned link kind role l s s' room is_link e solid h =
      let (r, (s₀, (got₀, h₀))) = then-done (read_invite noble uri connect link kind s) _ h in
      let followed : follow_link noble uri connect (trim link) kind s ≡ (done r, s₀) =
        subst
          (λ b.
            (if b then follow_link noble uri connect (trim link) kind else give (trim link, kind)) s
            ≡ (done r, s₀))
          is_link got₀ in
      let (read, named, at, unmoved) =
        follow_link-invite (trim link) kind l r s s₀ e solid followed in
      let (pinned, id, k, same) = join_with-IsPinned r.0 r.1 role l.invite s₀ s' room read h₀ in
      (
        subst (λ a. IsPinned noble (connect a).api s.party s'.party l.invite) at
            (moved-IsPinned noble (connect s₀.endpoint).api s₀.party s.party refl refl unmoved
              pinned),
        id,
        k ∙ named,
        same ∙ at,
      )
