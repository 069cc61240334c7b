-- ===== src/Local/Keys/Substitution.antt =====
-- What pinning the holder's fingerprint leaves open: the key cached under it.
use randevu.Base.{ℕ, true, false, some, [], ◌∷◌, Str, str_eq_refl, ◌≡◌, refl, ap, ◌∙◌}
use randevu.Noble.{Noble, Bytes}
use randevu.Core.Crypto.{agreement_key_pair_from_private}
use randevu.Core.SealedBox.{wrap_group_key, unwrap_group_key}
use randevu.Core.SealedBox.Opening.{SealLaws, unwrap-wrap_group_key}
use randevu.Core.GroupKey.{sign_group_key}
use randevu.Core.GroupKey.Agreement.{SignatureLaws, verify_group_key-sign_group_key}
use randevu.Relay.Store.{get}
use randevu.Relay.Store.Laws.{get-put_self}
use randevu.Relay.Session.Data.{StoredWrappedKey, Status, MemberInput}
use randevu.Local.Action.{done, fails, foreign}
use randevu.Local.Data.{Local}
use randevu.Local.Api.{RelayApi, Party}
use randevu.Local.Keys.{
  is_unexpected, fetch_group_key, sync_group_key, resolve_holder, cache, cache_into, dtos,
}

module _ (noble : Noble) (sk group_key sealed : Bytes) (pinned : Str) where
  -- A relay that lists the pinned fingerprint with a key of its own.
  abbrev pub rogue_member : MemberInput
  rogue_member = record {
    fingerprint = pinned;
    identity_pub = noble.bytes_to_hex (noble.ed25519_public sk);
    kx_pub = [];
  }

  abbrev rogue_status : Status
  rogue_status = record {
    session_id = [];
    creator_id = pinned;
    locked = true;
    epoch = 1;
    members = record { input = rogue_member; joined_seq = 0 } ∷ [];
    last_seq = 0;
  }

  abbrev rogue_key : Str → StoredWrappedKey
  rogue_key id = record {
    wrapped_key = noble.bytes_to_hex sealed;
    commitment = (sign_group_key noble id 1 group_key sk).commitment;
    signature = (sign_group_key noble id 1 group_key sk).signature;
  }

  unfoldable pub rogue : RelayApi (Unit {0})
  rogue = record {
    create_session = λ n m w. (fails foreign, w);
    join_session = λ i m w. (fails foreign, w);
    post_message = λ i m w. (fails foreign, w);
    get_messages = λ i n w. (done [], w);
    post_keys = λ i k w. (fails foreign, w);
    get_key = λ i e m w. (done (rogue_key i), w);
    status = λ i w. (done rogue_status, w);
  }

  not_unexpected : is_unexpected pinned pinned ≡ false
  not_unexpected = at pinned
    where
      at : (p : Str) → is_unexpected p p ≡ false
      at [] = refl
      at (c ∷ p) = rw (str_eq_refl (c ∷ p)) refl

  resolve_holder-rogue :
      (s : Party (Unit {0}))
      → is_unexpected s.me.creator_fingerprint pinned ≡ false
      → get s.me.members_by_id pinned ≡ some rogue_member
      → resolve_holder noble rogue pinned s ≡ (done rogue_member, s)
  unfolding resolve_holder
  resolve_holder-rogue s expected cached = rw (expected, cached) refl

  fetch_group_key-rogue :
      (s : Party (Unit {0})) (id : Str)
      → SignatureLaws noble
      → unwrap_group_key noble sealed s.me.agreement ≡ some group_key
      → is_unexpected s.me.creator_fingerprint pinned ≡ false
      → get s.me.members_by_id pinned ≡ some rogue_member
      → fetch_group_key noble rogue id 1 pinned s ≡ (done group_key, s)
  unfolding fetch_group_key rogue
  fetch_group_key-rogue s id laws opened expected cached =
      rw
        (
          laws.hex sealed,
          opened,
          resolve_holder-rogue s expected cached,
          laws.hex (noble.ed25519_public sk),
          verify_group_key-sign_group_key noble id 1 group_key sk laws,
        )
        refl

  -- A relay that knows the pinned fingerprint can make a member take a group key of its choice, which it
  -- signed with a key of its choice: it lists that key under the fingerprint. Nothing is asked of the
  -- key's own fingerprint.
  pub sync_group_key-rogue :
      (me : Local) (c : ℕ) (id : Str) (ephemeral private_key : Bytes)
      → SignatureLaws noble
      → SealLaws noble
      → me.session_id ≡ some (c ∷ id)
      → me.creator_fingerprint ≡ pinned
      → me.agreement ≡ agreement_key_pair_from_private noble private_key
      → wrap_group_key noble ephemeral group_key (noble.x25519_public private_key) ≡ some sealed
      → ((sync_group_key noble rogue (record { me = me; world = tt })).0 ≡ done tt)
        × ((sync_group_key noble rogue (record { me = me; world = tt })).1.me.group_key
            ≡ some group_key)
  unfolding sync_group_key rogue cache_into cache
  sync_group_key-rogue me c id ephemeral private_key laws seal joined pins pair wrapped =
      let opened : unwrap_group_key noble sealed me.agreement ≡ some group_key =
        ap (λ a. unwrap_group_key noble sealed a) pair
        ∙ unwrap-wrap_group_key noble ephemeral private_key group_key sealed seal wrapped in
      let expected : is_unexpected me.creator_fingerprint pinned ≡ false =
        ap (λ p. is_unexpected p pinned) pins ∙ not_unexpected in
      let ready : Party (Unit {0}) = record {
        me =
            cache (dtos rogue_status.members) (record me { session_id = some (c ∷ id); epoch = 1 });
        world = tt;
      } in
      let fetched =
        fetch_group_key-rogue ready (c ∷ id) laws opened expected
          (get-put_self me.members_by_id pinned rogue_member) in
      rw (joined, fetched) (refl, refl)
