-- ===== src/Relay/Session/Opening.antt =====
-- `init` over the store opens a room.
use mathlib.Core.List.{Perm}
use randevu.Base.{◌≤◌, true, false, none, [], ◌∷◌, Str, ◌≡◌, refl, subst, ◌∙◌, arith}
use randevu.Noble.{Noble}
use randevu.Relay.Store.{Store, put, list}
use randevu.Relay.Store.Listing.{list-put_new, list-nil}
use randevu.Relay.Store.Laws.{get-nil}
use randevu.Relay.Keys.{meta, seq, member, token, key, member_prefix}
use randevu.Relay.Keys.Laws.{starts_with-member_prefix}
use randevu.Relay.Session.{sha256_hex, init}
use randevu.Relay.Session.Data.{
  Member, SessionMeta, Value, meta_value, number_value, member_value, flag_value, ok, InitInput,
}
use randevu.Relay.Session.Room
use randevu.Relay.Session.Room.{Room, find_member}
use randevu.Relay.Session.Refines.{
  Refines, member_entry, get-put-key, members-put_other, messages-put_other,
}

module _ (noble : Noble) (input : InitInput) (join_token : Str) where
  first_meta : SessionMeta
  first_meta = record {
    session_id = input.session_id;
    max_members = input.max_members;
    locked = false;
    epoch = 0;
    creator_id = input.creator.fingerprint;
  }

  -- The room that `init` opens.
  unfoldable pub first_room : Room
  unfolding first_meta
  first_room = Room.opened first_meta input.creator (sha256_hex noble join_token)

  first_member : Member
  first_member = record { input = input.creator; joined_seq = 0 }

  first_store : Store Value
  unfolding first_meta first_member
  first_store =
      put
        (put (put (put [] (key meta) (meta_value first_meta)) (key seq) (number_value 0))
          (key (member input.creator.fingerprint)) (member_value first_member))
        (key (token (sha256_hex noble join_token))) (flag_value true)

  init-eq :
      2 ≤ input.max_members
      → init noble [] input join_token ≡ (
        ok (record {
          session_id = input.session_id;
          join_token = join_token;
          member_id = input.creator.fingerprint;
        }),
        first_store,
      )
  unfolding init first_store
  init-eq h = rw get-nil (ground arith)

  bare_store : Store Value
  unfolding first_meta
  bare_store = put (put [] (key meta) (meta_value first_meta)) (key seq) (number_value 0)

  first_listed :
      Perm
        (list
          (put bare_store (key (member input.creator.fingerprint)) (member_value first_member))
          member_prefix
          none)
        (member_entry first_member ∷ [])
  unfolding bare_store first_member
  first_listed =
      subst
        (λ t.
          Perm
            (list
              (put bare_store (key (member input.creator.fingerprint)) (member_value first_member))
              member_prefix none)
            (member_entry first_member ∷ t))
        (members-put_other _ seq _ none refl
          ∙ members-put_other _ meta _ none refl
          ∙ list-nil member_prefix none)
        (list-put_new bare_store (key (member input.creator.fingerprint)) member_prefix
          (member_value first_member) (starts_with-member_prefix (member input.creator.fingerprint))
          (simp (get-put-key, get-nil)))

  first_store-Refines : Refines first_store first_room
  unfolding first_store first_room bare_store Room.opened
  first_store-Refines = record {
    meta_at = simp get-put-key;
    seq_at = simp get-put-key;
    member_at = λ fp. simp (get-put-key, get-nil) (unfold find_member in ground arith);
    member_free = λ fp e. simp (get-put-key, get-nil) (unfold find_member in ground arith);
    members_listed = rw members-put_other first_listed;
    log_listed = simp (messages-put_other, list-nil);
    numbered = tt;
    log_end = λ n e. simp (get-put-key, get-nil);
    token_at = λ t. simp (get-put-key, get-nil) (ground arith);
    wrapped_at = λ e fp. simp (get-put-key, get-nil);
  }

  -- An empty store opened by `init`, with two places at least, holds the new room.
  pub init-Refines : 2 ≤ input.max_members → Refines (init noble [] input join_token).1 first_room
  init-Refines h = rw (init-eq h) first_store-Refines
