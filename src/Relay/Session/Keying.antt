-- ===== src/Relay/Session/Keying.antt =====
-- `postKeys` and `getKey` over the store write and read the room's wrapped keys.
use randevu.Base.{
  ℕ, Bool, true, false, not, Option, none, some, is_some, List, [], ◌∷◌, Str, str_eq, ◌≡◌, refl,
  if◌then◌else◌, ◌==◌, ◌&&◌,
}
use randevu.Relay.Store.{Store, get, put}
use randevu.Relay.Keys.{meta, member, gkey, key}
use randevu.Relay.Session.{put_wraps, post_keys, get_key}
use randevu.Relay.Session.Data.{
  Value, wrapped_value, meta_value, SessionMeta, StoredWrappedKey, Result, ok, err, KeysInput, Wrap,
  as_member, as_wrapped,
}
use randevu.Relay.Session.Room
use randevu.Relay.Session.Room.{Room, find_member}
use randevu.Relay.Session.Refines.{Refines, get-put-key, members-put_other, messages-put_other}

-- One wrapped key more.
put_wrap-Refines :
    (st : Store Value) (r : Room) (epoch : ℕ) (fp : Str) (w : StoredWrappedKey)
    → Refines st r
    → Refines (put st (key (gkey epoch fp)) (wrapped_value w)) (record r {
      wrapped = λ e f. if (epoch == e) && str_eq fp f then some w else r.wrapped e f;
    })
put_wrap-Refines st r epoch fp w h = record {
  meta_at = simp get-put-key h.meta_at;
  seq_at = simp get-put-key h.seq_at;
  member_at = λ f. simp get-put-key (h.member_at f);
  member_free = λ f e. simp get-put-key (h.member_free f e);
  members_listed = rw members-put_other h.members_listed;
  log_listed = rw messages-put_other h.log_listed;
  numbered = h.numbered;
  log_end = λ n e. simp get-put-key (h.log_end n e);
  token_at = λ t. simp get-put-key (h.token_at t);
  wrapped_at = λ e f. simp get-put-key (at ((epoch == e) && str_eq fp f) e f);
}
  where
    at :
        (b : Bool) (e : ℕ) (f : Str)
        → as_wrapped (if b then some (wrapped_value w) else get st (key (gkey e f)))
          ≡ (if b then some w else r.wrapped e f)
    at true e f = refl
    at false e f = h.wrapped_at e f

put_wraps-Refines :
    (input : KeysInput) (ws : List Wrap) (st : Store Value) (r : Room)
    → Refines st r
    → Refines (put_wraps st input ws) (Room.share r input ws)
unfolding put_wraps Room.share
put_wraps-Refines input [] st r h = h
put_wraps-Refines input (w ∷ ws) st r h =
    put_wraps-Refines input ws _ _ (put_wrap-Refines st r input.epoch w.recipient_id _ h)

post_keys-open :
    (st : Store Value) (m : SessionMeta) (input : KeysInput)
    → get st (key meta) ≡ some (meta_value m)
    → post_keys st input ≡ (
        if not (is_some (as_member (get st (key (member input.sender_id)))))
        then (err 403 "not_a_member", st)
        else if not (str_eq input.sender_id m.creator_id)
        then (err 403 "not_key_holder", st)
        else (ok tt, put_wraps st input input.wraps))
unfolding post_keys
post_keys-open st m input e = rw (e, post_keys)

abbrev Agree : Result (Unit {0}) × Store Value → Result (Unit {0}) × Room → Type 0
Agree a b = (a.0 ≡ b.0) × Refines a.1 b.1

guards {ℓ κ} :
    {S : Type ℓ} {T : Type κ} (P : S → T → Type 0) (known holder : Bool) (s₁ s₂ s₃ : S)
    (t₁ t₂ t₃ : T)
    → P s₁ t₁
    → P s₂ t₂
    → P s₃ t₃
    → P
        (if not known then s₁ else if not holder then s₂ else s₃)
        (if not known then t₁ else if not holder then t₂ else t₃)
guards P true true s₁ s₂ s₃ t₁ t₂ t₃ a b c = c
guards P true false s₁ s₂ s₃ t₁ t₂ t₃ a b c = b
guards P false holder s₁ s₂ s₃ t₁ t₂ t₃ a b c = a

-- On a store that holds a room `postKeys` stores what the key-holder posts; for anybody else it
-- refuses, and the store holds the room as it was.
pub post_keys-Refines :
    (st : Store Value) (r : Room) (input : KeysInput)
    → Refines st r
    → ((post_keys st input).0 ≡ (Room.distribute r input).0)
      × Refines (post_keys st input).1 (Room.distribute r input).1
unfolding Room.distribute
post_keys-Refines st r input h =
    rw (post_keys-open st r.meta input h.meta_at, h.member_at)
      (guards Agree (is_some (find_member input.sender_id r.members))
        (str_eq input.sender_id r.meta.creator_id) _ _ _ _ _ _ (refl, h) (refl, h)
        (refl, put_wraps-Refines input input.wraps st r h))

found : Option StoredWrappedKey → Result StoredWrappedKey
found none = err 404 "key_not_found"
found (some entry) = ok entry

-- `getKey` gives the wrapped key that the room has for an epoch and a member.
pub get_key-Refines :
    (st : Store Value) (r : Room) (epoch : ℕ) (fp : Str) {w : StoredWrappedKey}
    → Refines st r
    → r.wrapped epoch fp ≡ some w
    → get_key st epoch fp ≡ (ok w, st)
unfolding get_key
get_key-Refines st r epoch fp h e = rw (h.meta_at, h.wrapped_at, e)
