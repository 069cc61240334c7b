-- ===== src/Relay/Keys/Laws.antt =====
-- The key families are apart, and message keys are ordered as their numbers are.
use randevu.Base.{
  ℕ, ◌<◌, ◌^◌, ◌++◌, Str, text, str_eq, str_eq_iff, str_lt, str_lt-append, str_eq-append,
  starts_with, starts_with-append, decimal, pad_start, fixed-lt, pad-decimal, pad_decimal-injective,
  decimal-injective, decimal-digits, digits_split, IsDigit, Bool, true, false, ◌&&◌, ◌≡◌, refl, sym,
  ap, ◌∙◌, arith, ◌==◌, ==_iff,
}
use randevu.Relay.Keys.{Key, meta, seq, member, token, msg, gkey, key, member_prefix, msg_prefix}

-- The number of messages below which the padded keys are ordered.
abbrev pub seq_limit : ℕ
seq_limit = 10 ^ 12

-- Below 10 ^ 12, message keys are ordered as their sequence numbers are.
pub msg_key-lt : (a b : ℕ) → a < b → b < seq_limit → str_lt (key (msg a)) (key (msg b)) ≡ true
unfolding key
msg_key-lt a b h k =
    rw (str_lt-append (text "msg:") (pad_start 12 (decimal a)) (pad_start 12 (decimal b))) (
      rw (pad-decimal 12 a (omega arith) (omega arith), pad-decimal 12 b k (omega arith))
        (fixed-lt 12 a b h k))

-- Equality of keys, entry by entry.
abbrev pub same : Key → Key → Bool
same meta meta = true
same seq seq = true
same (member a) (member b) = str_eq a b
same (token a) (token b) = str_eq a b
same (msg a) (msg b) = a == b
same (gkey a f) (gkey b g) = (a == b) && str_eq f g
same _ _ = false

Bool-eq : (a b : Bool) → (a ≡ true → b ≡ true) → (b ≡ true → a ≡ true) → a ≡ b
Bool-eq true b h k = sym (h refl)
Bool-eq false true h k = k refl
Bool-eq false false h k = refl

msg_same : (a b : ℕ) → str_eq (pad_start 12 (decimal a)) (pad_start 12 (decimal b)) ≡ (a == b)
msg_same a b =
    Bool-eq _ _ (λ h. (==_iff a b).1 (pad_decimal-injective 12 a b ((str_eq_iff _ _).0 h)))
      (λ h. (str_eq_iff _ _).1 (ap (λ n. pad_start 12 (decimal n)) ((==_iff a b).0 h)))

colon : ¬ IsDigit 58
colon h = omega arith

gkey_same :
    (a b : ℕ) (f g : Str)
    → str_eq (decimal a ++ (text ":" ++ f)) (decimal b ++ (text ":" ++ g))
      ≡ ((a == b) && str_eq f g)
gkey_same a b f g =
    Bool-eq _ _
      (λ h.
        let p =
          digits_split 58 (decimal a) (decimal b) f g colon (decimal-digits a) (decimal-digits b)
            ((str_eq_iff _ _).0 h) in
        ground (arith, str_eq_iff f g, decimal-injective a b p.0))
      (λ h. (str_eq_iff _ _).1 (ground (arith, str_eq_iff f g)))

-- Two keys are equal strings exactly when they are the same entry with the same arguments.
pub str_eq-key : (a b : Key) → str_eq (key a) (key b) ≡ same a b
unfolding key str_eq
str_eq-key meta meta = refl
str_eq-key (member a) (member b) = str_eq-append (text "member:") a b
str_eq-key (token a) (token b) = str_eq-append (text "token:") a b
str_eq-key (msg a) (msg b) =
    str_eq-append (text "msg:") (pad_start 12 (decimal a)) (pad_start 12 (decimal b)) ∙ msg_same a b
str_eq-key seq seq = refl
str_eq-key (gkey a f) (gkey b g) =
    str_eq-append (text "gkey:") (decimal a ++ (text ":" ++ f)) (decimal b ++ (text ":" ++ g))
    ∙ gkey_same a b f g
str_eq-key _ _ = refl

-- Which keys a listing of a prefix shows.
abbrev pub is_member_key : Key → Bool
is_member_key (member fp) = true
is_member_key _ = false

abbrev pub is_msg_key : Key → Bool
is_msg_key (msg n) = true
is_msg_key _ = false

pub starts_with-member_prefix : (a : Key) → starts_with (key a) member_prefix ≡ is_member_key a
unfolding key starts_with
starts_with-member_prefix (member fp) = starts_with-append (text "member:") fp
starts_with-member_prefix _ = refl

pub starts_with-msg_prefix : (a : Key) → starts_with (key a) msg_prefix ≡ is_msg_key a
unfolding key starts_with
starts_with-msg_prefix (msg n) = starts_with-append (text "msg:") (pad_start 12 (decimal n))
starts_with-msg_prefix _ = refl
