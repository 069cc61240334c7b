-- ===== src/Core/Sas/Order.antt =====
-- The code does not depend on the order in which the keys are given, and has its number of digits.
use mathlib.Core.List.{Perm, Permᴰ}
use mathlib.Core.Logic.{∥∥₁_elim}
use native.Mathlib.Nat.{pow-suc, mod-lt}
use randevu.Base.{
  ℕ, zero, suc, ◌<◌, ◌^◌, ◌%◌, Bool, true, false, List, [], ◌∷◌, length, Str, decimal, pad_start,
  pad-decimal, length-fixed, fixed-digits, IsDigit, All, ltb, ap₂, if◌then◌else◌, ◌==◌, ◌≡◌, refl,
  sym, ap, ◌∙◌, arith, str_lt, str_lt_trans, str_lt_irrefl, str_lt_total,
}
use randevu.Noble.{Noble, Bytes}
use randevu.Core.Sas.{
  Sign, sign_of, or_else, compare_from, compare_bytes, is_negative, insert_bytes, sort_bytes,
  places, compute_sas,
}

sign_of-suc : (a b : ℕ) → sign_of (suc a) (suc b) ≡ sign_of a b
sign_of-suc a b = ground arith

decided :
    (x y : ℕ) (c : Sign) (t : Bool)
    → is_negative c ≡ t
    → is_negative (or_else (sign_of x y) c)
      ≡ (if ltb x y then true else if x == y then t else false)
decided x y c t h = ground arith

-- The comparator is the lexicographic order, a prefix first.
compare_from-lt :
    (a b : Bytes) (rest : Sign)
    → sign_of (length a) (length b) ≡ rest
    → is_negative (compare_from rest a b) ≡ str_lt a b
unfolding compare_from str_lt
compare_from-lt [] [] rest e = ground arith
compare_from-lt [] (y ∷ b) rest e = ground arith
compare_from-lt (x ∷ a) [] rest e = ground arith
compare_from-lt (x ∷ a) (y ∷ b) rest e =
    decided x y (compare_from rest a b) (str_lt a b)
      (compare_from-lt a b rest (sym (sign_of-suc (length a) (length b)) ∙ e))

compare_bytes-lt : (a b : Bytes) → is_negative (compare_bytes a b) ≡ str_lt a b
unfolding compare_bytes
compare_bytes-lt a b = compare_from-lt a b _ refl

-- `insert_bytes` by the order.
insert_lt : Bytes → List Bytes → List Bytes
insert_lt k [] = k ∷ []
insert_lt k (j ∷ js) = if str_lt j k then j ∷ insert_lt k js else k ∷ j ∷ js

insert_bytes-lt : (k : Bytes) (l : List Bytes) → insert_bytes k l ≡ insert_lt k l
unfolding insert_bytes insert_lt
insert_bytes-lt k [] = refl
insert_bytes-lt k (j ∷ js) = rw (compare_bytes-lt j k, insert_bytes-lt k js)

insert_comm :
    (a b : Bytes) (l : List Bytes) → insert_lt a (insert_lt b l) ≡ insert_lt b (insert_lt a l)
unfolding insert_lt
insert_comm a b [] = ground (arith, str_lt_total a b, str_lt_trans a b a, str_lt_irrefl a)
insert_comm a b (j ∷ l) = ground (
  arith,
  insert_comm a b l,
  str_lt_total a b,
  str_lt_total j a,
  str_lt_total j b,
  str_lt_trans a b a,
  str_lt_irrefl a,
  str_lt_trans b j a,
  str_lt_trans a j b,
  str_lt_irrefl b,
  str_lt_irrefl j,
)

sort_lt : List Bytes → List Bytes
sort_lt [] = []
sort_lt (k ∷ ks) = insert_lt k (sort_lt ks)

sort_bytes-lt : (ks : List Bytes) → sort_bytes ks ≡ sort_lt ks
unfolding sort_bytes sort_lt
sort_bytes-lt [] = refl
sort_bytes-lt (k ∷ ks) = insert_bytes-lt k (sort_bytes ks) ∙ ap (insert_lt k) (sort_bytes-lt ks)

sort-permᴰ : {xs ys : List Bytes} → Permᴰ xs ys → sort_lt xs ≡ sort_lt ys
unfolding sort_lt
sort-permᴰ Permᴰ.nil = refl
sort-permᴰ (Permᴰ.cons e p) = ap₂ insert_lt e (sort-permᴰ p)
sort-permᴰ (Permᴰ.swap {a} {b} {l = l} e f) =
    insert_comm a b (sort_lt l) ∙ ap₂ (λ u v. insert_lt u (insert_lt v (sort_lt l))) f e
sort-permᴰ (Permᴰ.trans p q) = sort-permᴰ p ∙ sort-permᴰ q

Bytes_list-set : IsSet (List Bytes)
Bytes_list-set = hlevel

sort_bytes-perm : (xs ys : List Bytes) → Perm xs ys → sort_bytes xs ≡ sort_bytes ys
sort_bytes-perm xs ys p =
    sort_bytes-lt xs ∙ ∥∥₁_elim p (Bytes_list-set _ _) sort-permᴰ ∙ sym (sort_bytes-lt ys)

-- Both parties compute the code, whatever the order in which they hold the members' keys.
pub compute_sas-perm :
    (noble : Noble) (session_id : Str) (xs ys : List Bytes) (digits : ℕ)
    → Perm xs ys
    → compute_sas noble session_id xs digits ≡ compute_sas noble session_id ys digits
unfolding compute_sas
compute_sas-perm noble session_id xs ys digits p = rw (sort_bytes-perm xs ys p)

pow_pos : (w : ℕ) → 0 < 10 ^ w
pow_pos zero = omega arith
pow_pos (suc w) = omega (arith, pow-suc 10 w, pow_pos w)

padded :
    (w v : ℕ)
    → 0 < w
    → (length (pad_start w (decimal (v % 10 ^ w))) ≡ w)
      × All IsDigit (pad_start w (decimal (v % 10 ^ w)))
padded w v h =
    let e = pad-decimal w (v % 10 ^ w) (mod-lt v (pow_pos w)) h in
    rw e (length-fixed w (v % 10 ^ w), fixed-digits w (v % 10 ^ w))

-- The code has its number of digits, between 1 and 9, and nothing but digits.
pub length-compute_sas :
    (noble : Noble) (session_id : Str) (keys : List Bytes) (digits : ℕ)
    → (length (compute_sas noble session_id keys digits) ≡ places digits)
      × All IsDigit (compute_sas noble session_id keys digits)
unfolding compute_sas
length-compute_sas noble session_id keys digits = padded (places digits) _ (omega arith)
