-- ===== src/Relay/Session/Members.antt =====
-- The member list that `members` of apps/relay/src/session.ts gives, up to order.
use mathlib.Core.List
use native.Mathlib.Bridge.{from_ℕ}
use mathlib.Core.List.{filter_map, Perm, map-append, perm_middle}
use mathlib.Core.List.Perm
use randevu.Base.{
  suc, Option, none, some, List, [], ◌∷◌, ◌++◌, map, length, Str, str_eq, str_eq_iff, ◌≡◌, refl, ap,
  sym, ◌∙◌, arith, if◌then◌else◌, ltb, Bool-cases, inl, inr,
}
use randevu.Relay.Store.{Store, list}
use randevu.Relay.Keys.{member_prefix}
use randevu.Relay.Session.{insert_member, sort_members, members}
use randevu.Relay.Session.Data.{
  Member, Value, meta_value, number_value, member_value, flag_value, message_value, wrapped_value,
  member_values,
}
use randevu.Relay.Session.Room.{Room, find_member}
use randevu.Relay.Session.Refines.{Refines, member_entry}

pub member_values-entries : (ms : List Member) → member_values (map member_entry ms) ≡ ms
member_values-entries [] = refl
member_values-entries (m ∷ ms) = ap (λ t. m ∷ t) (member_values-entries ms)

insert_member-perm : (m : Member) (ms : List Member) → Perm (insert_member m ms) (m ∷ ms)
unfolding insert_member
insert_member-perm m [] = Perm.refl _
insert_member-perm m (n ∷ ns) = elim (Bool-cases (ltb n.joined_seq m.joined_seq)) [
  | inl e ↦ rw e (Perm.trans (Perm.cons n (insert_member-perm m ns)) (Perm.swap m n ns))
  | inr e ↦ rw e (Perm.refl _)
]

pub sort_members-perm : (ms : List Member) → Perm (sort_members ms) ms
unfolding sort_members
sort_members-perm [] = Perm.refl _
sort_members-perm (m ∷ ms) =
    Perm.trans (insert_member-perm m (sort_members ms)) (Perm.cons m (sort_members-perm ms))

abbrev member_value? : Str × Value → Option Member
member_value? (k, member_value m) = some m
member_value? (k, v) = none

member_values-filter_map :
    (es : List (Str × Value)) → member_values es ≡ filter_map member_value? es
unfolding filter_map
member_values-filter_map [] = refl
member_values-filter_map ((k, member_value m) ∷ es) = ap (λ t. m ∷ t) (member_values-filter_map es)
member_values-filter_map ((k, meta_value m) ∷ es) = member_values-filter_map es
member_values-filter_map ((k, number_value m) ∷ es) = member_values-filter_map es
member_values-filter_map ((k, flag_value m) ∷ es) = member_values-filter_map es
member_values-filter_map ((k, message_value m) ∷ es) = member_values-filter_map es
member_values-filter_map ((k, wrapped_value m) ∷ es) = member_values-filter_map es

pub member_values-perm :
    (es fs : List (Str × Value)) → Perm es fs → Perm (member_values es) (member_values fs)
member_values-perm es fs p =
    rw (member_values-filter_map es, member_values-filter_map fs) (Perm.filter_map member_value? p)

length-bridge : (ms : List Member) → length ms ≡ from_ℕ (List.length ms)
length-bridge [] = refl
length-bridge (m ∷ ms) = ap suc (length-bridge ms)

pub perm-length : (xs ys : List Member) → Perm xs ys → length xs ≡ length ys
perm-length xs ys p = length-bridge xs ∙ ap from_ℕ (Perm.length-eq p) ∙ sym (length-bridge ys)

-- The member list that `members` gives, up to order.
pub members-perm : (st : Store Value) (r : Room) → Refines st r → Perm (members st) r.members
unfolding members
members-perm st r h =
    Perm.trans (sort_members-perm (member_values (list st member_prefix none)))
      (rw (← member_values-entries r.members) (member_values-perm _ _ h.members_listed))

pub find_member-snoc :
    (fp : Str) (ms : List Member) (new : Member)
    → find_member new.fingerprint ms ≡ none
    → find_member fp (ms ++ new ∷ [])
      ≡ (if str_eq new.fingerprint fp then some new else find_member fp ms)
unfolding find_member
find_member-snoc fp [] new h = refl
find_member-snoc fp (m ∷ ms) new h = ground (
  arith,
  find_member-snoc fp ms new,
  str_eq_iff m.fingerprint fp,
  str_eq_iff new.fingerprint fp,
  str_eq_iff m.fingerprint new.fingerprint,
)
