-- ===== src/Relay/Session/Joining.antt =====
-- `join` over the store admits members to a room.
use mathlib.Core.List.{Perm, map-append, perm_middle}
use mathlib.Core.List.Perm
use randevu.Base.{
  ℕ, ◌+◌, Bool, true, false, not, Option, none, some, is_some, List, [], ◌∷◌, ◌++◌, map, length,
  Str, str_eq, ◌≡◌, refl, subst, sym, ◌∙◌, arith, if◌then◌else◌, append-nil, length-append,
}
use randevu.Noble.{Noble}
use randevu.Relay.Store.{Store, get, put, list}
use randevu.Relay.Store.Listing.{list-put_new}
use randevu.Relay.Keys.{meta, member, token, key, member_prefix}
use randevu.Relay.Keys.Laws.{starts_with-member_prefix}
use randevu.Relay.Session.{sha256_hex, members, admit, join}
use randevu.Relay.Session.Data.{
  Member, MemberInput, SessionMeta, Value, meta_value, member_value, Result, ok, err, JoinInput,
  JoinResult, as_member, as_flag, member_values,
}
use randevu.Relay.Session.Room
use randevu.Relay.Session.Room.{Room, find_member}
use randevu.Relay.Session.Refines.{
  Refines, member_entry, get-put-key, members-put_other, messages-put_other,
}
use randevu.Relay.Session.Members.{
  member_values-entries, sort_members-perm, member_values-perm, perm-length, find_member-snoc,
}

module _ (st : Store Value) (r : Room) (h : Refines st r) (input : MemberInput)
    (free : find_member input.fingerprint r.members ≡ none) where
  new_member : Member
  new_member = record { input = input; joined_seq = length r.log }

  enlarged : List Member
  unfolding new_member
  enlarged = r.members ++ new_member ∷ []

  -- The write of the member in `join`.
  entered : Store Value
  unfolding new_member
  entered = put st (key (member input.fingerprint)) (member_value new_member)

  entered-listed : Perm (list entered member_prefix none) (map member_entry enlarged)
  unfolding entered enlarged new_member
  entered-listed = rw (map-append member_entry r.members (new_member ∷ [])) (
      Perm.trans
        (list-put_new st (key (member input.fingerprint)) member_prefix (member_value new_member)
          (starts_with-member_prefix (member input.fingerprint))
          (h.member_free input.fingerprint free))
        (Perm.trans (Perm.cons (member_entry new_member) h.members_listed) (
          Perm.symm (
            subst
              (λ t.
                Perm (map member_entry r.members ++ member_entry new_member ∷ [])
                  (member_entry new_member ∷ t))
              (append-nil (map member_entry r.members))
              (perm_middle (map member_entry r.members) [])))))

  length-members-entered : length (members entered) ≡ length r.members + 1
  unfolding members
  length-members-entered =
      perm-length _ enlarged (
        Perm.trans (sort_members-perm (member_values (list entered member_prefix none)))
          (rw (← member_values-entries enlarged) (member_values-perm _ _ entered-listed)))
      ∙ unfold enlarged in length-append r.members (new_member ∷ [])

-- What the answer of `join` says of the room: the epoch and the lock.
abbrev pub summary : Result JoinResult → Result (ℕ × Bool)
summary (ok a) = ok (a.epoch, a.locked)
summary (err status code) = err status code

module _ (st : Store Value) (r : Room) (h : Refines st r) (input : MemberInput)
    (free : find_member input.fingerprint r.members ≡ none) where
  admitted_meta : SessionMeta
  admitted_meta = (Room.admitted r input).meta

  admitted_store : Store Value
  admitted_store = put (entered st r h input free) (key meta) (meta_value admitted_meta)

  admit-eq : admit st r.meta input ≡ (
    ok (record {
      members = members (entered st r h input free);
      epoch = admitted_meta.epoch;
      locked = admitted_meta.locked;
    }),
    admitted_store,
  )
  unfolding admit admitted_store admitted_meta entered new_member Room.admitted
  admit-eq = rw (h.seq_at, length-members-entered st r h input free)

  admitted-Refines : Refines admitted_store (Room.admitted r input)
  unfolding admitted_store admitted_meta entered new_member Room.admitted
  admitted-Refines = record {
    meta_at = simp get-put-key;
    seq_at = simp get-put-key h.seq_at;
    member_at = λ fp. simp get-put-key (found fp (get st (key (member fp))) (h.member_at fp));
    member_free =
        λ fp e. simp get-put-key (unfound fp (get st (key (member fp))) (h.member_free fp) e);
    members_listed = rw members-put_other (unfold enlarged in entered-listed st r h input free);
    log_listed = rw messages-put_other (rw messages-put_other h.log_listed);
    numbered = h.numbered;
    log_end = λ n e. simp get-put-key (h.log_end n e);
    token_at = λ t. simp get-put-key (h.token_at t);
    wrapped_at = λ e fp. simp get-put-key (h.wrapped_at e fp);
  }
    where
      found :
          (fp : Str) (o : Option Value)
          → as_member o ≡ find_member fp r.members
          → as_member (
              if str_eq input.fingerprint fp
              then some (member_value (new_member st r h input free))
              else o)
            ≡ find_member fp (r.members ++ new_member st r h input free ∷ [])
      found fp o e =
          ground (arith, find_member-snoc fp r.members (new_member st r h input free) free)

      unfound :
          (fp : Str) (o : Option Value)
          → (find_member fp r.members ≡ none → o ≡ none)
          → find_member fp (r.members ++ new_member st r h input free ∷ []) ≡ none
          → (if str_eq input.fingerprint fp
              then some (member_value (new_member st r h input free))
              else o)
            ≡ none
      unfound fp o k e =
          ground (arith, find_member-snoc fp r.members (new_member st r h input free) free)

-- `join` behind the lookup of the session.
join-open :
    (noble : Noble) (st : Store Value) (m : SessionMeta) (input : JoinInput)
    → get st (key meta) ≡ some (meta_value m)
    → join noble st input ≡ (
        if m.locked
        then (err 423 "session_locked", st)
        else if not (as_flag (get st (key (token (sha256_hex noble input.join_token)))))
        then (err 403 "invalid_join_token", st)
        else if is_some (as_member (get st (key (member input.member.fingerprint))))
        then (err 409 "member_exists", st)
        else admit st m input.member)
unfolding join
join-open noble st m input e = rw (e, join)

-- Two chains of the three guards of `join` agree if their branches do.
guards {ℓ κ} :
    {S : Type ℓ} {T : Type κ} (P : S → T → Type 0) (locked valid taken : Bool) (s₁ s₂ s₃ s₄ : S)
    (t₁ t₂ t₃ t₄ : T)
    → P s₁ t₁
    → P s₂ t₂
    → P s₃ t₃
    → (taken ≡ false → P s₄ t₄)
    → P
        (if locked then s₁ else if not valid then s₂ else if taken then s₃ else s₄)
        (if locked then t₁ else if not valid then t₂ else if taken then t₃ else t₄)
guards P true valid taken s₁ s₂ s₃ s₄ t₁ t₂ t₃ t₄ a b c d = a
guards P false false taken s₁ s₂ s₃ s₄ t₁ t₂ t₃ t₄ a b c d = b
guards P false true true s₁ s₂ s₃ s₄ t₁ t₂ t₃ t₄ a b c d = c
guards P false true false s₁ s₂ s₃ s₄ t₁ t₂ t₃ t₄ a b c d = d refl

-- The answers agree, and the store left holds the room left.
abbrev Agree : Result JoinResult × Store Value → Result (ℕ × Bool) × Room → Type 0
Agree a b = (summary a.0 ≡ b.0) × Refines a.1 b.1

-- On a store that holds a room `join` answers with the room's epoch and lock, and admits the member;
-- when the room refuses, it refuses with the same error, and the store holds the room as it was.
pub join-Refines :
    (noble : Noble) (st : Store Value) (r : Room) (input : JoinInput)
    → Refines st r
    → (summary (join noble st input).0
        ≡ (Room.enter r (sha256_hex noble input.join_token) input.member).0)
      × Refines
          (join noble st input).1
          (Room.enter r (sha256_hex noble input.join_token) input.member).1
unfolding Room.enter
join-Refines noble st r input h =
    rw (join-open noble st r.meta input h.meta_at, h.token_at, h.member_at)
      (guards Agree r.meta.locked (r.tokens (sha256_hex noble input.join_token))
        (is_some (find_member input.member.fingerprint r.members)) _ _ _ _ _ _ _ _ (refl, h)
        (refl, h) (refl, h)
        (λ e.
          let f : find_member input.member.fingerprint r.members ≡ none = ground arith in
          subst
            (λ t. Agree t (
              ok (
                (Room.admitted r input.member).meta.epoch,
                (Room.admitted r input.member).meta.locked,
              ),
              Room.admitted r input.member,
            ))
            (sym (admit-eq st r h input.member f))
            (unfold admitted_meta in (refl, admitted-Refines st r h input.member f))))
