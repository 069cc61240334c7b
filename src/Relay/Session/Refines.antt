-- ===== src/Relay/Session/Refines.antt =====
-- When a store holds a room.
use mathlib.Core.List.{Perm}
use randevu.Base.{
  ℕ, ◌<◌, false, Option, none, some, List, map, length, Str, refl, ◌≡◌, if◌then◌else◌, ◌∙◌, ap,
}
use randevu.Relay.Store.{Store, get, put, list}
use randevu.Relay.Store.Laws.{get-put}
use randevu.Relay.Keys.{Key, meta, seq, member, token, msg, gkey, key, member_prefix, msg_prefix}
use randevu.Relay.Keys.Laws.{
  msg_key-lt, seq_limit, same, str_eq-key, is_member_key, is_msg_key, starts_with-member_prefix,
  starts_with-msg_prefix,
}
use randevu.Base.Numbered.{IsNumbered}
use randevu.Relay.Store.Ranged.{Keyed}
use randevu.Relay.Store.Listing.{list-put_other}
use randevu.Relay.Session.Data.{
  message_values, Member, StoredMessage, Value, meta_value, number_value, member_value,
  message_value, as_member, as_flag, as_wrapped,
}
use randevu.Relay.Session.Room.{Room, find_member}

-- The log is numbered from n + 1 on.
abbrev pub Numbered : ℕ → List StoredMessage → Type 0
Numbered = IsNumbered (λ m. m.seq)

-- The messages under their keys, below 10 ^ 12 of them.
abbrev pub keyed : Keyed StoredMessage Value
keyed = record {
  seq = λ m. m.seq;
  key = λ n. key (msg n);
  limit = seq_limit;
  value = message_value;
  values = message_values;
  none_valued = refl;
  one_valued = λ k m es. refl;
  ordered = msg_key-lt;
}

abbrev pub member_entry : Member → Str × Value
member_entry m = (key (member m.fingerprint), member_value m)

abbrev pub msg_entry : StoredMessage → Str × Value
msg_entry m = (key (msg m.seq), message_value m)

pub record Refines (st : Store Value) (r : Room) : Type 0 where
  pub meta_at : get st (key meta) ≡ some (meta_value r.meta)
  pub seq_at : get st (key seq) ≡ some (number_value (length r.log))
  pub member_at : (fp : Str) → as_member (get st (key (member fp))) ≡ find_member fp r.members
  pub member_free : (fp : Str) → find_member fp r.members ≡ none → get st (key (member fp)) ≡ none
  pub members_listed : Perm (list st member_prefix none) (map member_entry r.members)
  pub log_listed : list st msg_prefix none ≡ map msg_entry r.log
  pub numbered : Numbered 0 r.log
  pub log_end : (n : ℕ) → length r.log < n → get st (key (msg n)) ≡ none
  pub token_at : (h : Str) → as_flag (get st (key (token h))) ≡ r.tokens h
  pub wrapped_at : (e : ℕ) (fp : Str) → as_wrapped (get st (key (gkey e fp))) ≡ r.wrapped e fp

-- A read after a write, by the keys' entries.
pub get-put-key :
    (st : Store Value) (a b : Key) (v : Value)
    → get (put st (key a) v) (key b) ≡ (if same a b then some v else get st (key b))
get-put-key st a b v =
    get-put st (key a) (key b) v ∙ ap (λ t. if t then some v else get st (key b)) (str_eq-key a b)

-- A write outside a family leaves the family's listing alone.
module _ (st : Store Value) (a : Key) (v : Value) (start : Option Str) where
  pub members-put_other :
      is_member_key a ≡ false
      → list (put st (key a) v) member_prefix start ≡ list st member_prefix start
  members-put_other e =
      list-put_other st (key a) v member_prefix start (starts_with-member_prefix a ∙ e)

  pub messages-put_other :
      is_msg_key a ≡ false → list (put st (key a) v) msg_prefix start ≡ list st msg_prefix start
  messages-put_other e = list-put_other st (key a) v msg_prefix start (starts_with-msg_prefix a ∙ e)
