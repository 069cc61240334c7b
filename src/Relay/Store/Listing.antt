-- ===== src/Relay/Store/Listing.antt =====
-- What a write does to a listing of the keys under a prefix.
use mathlib.Core.List.{Perm}
use mathlib.Core.List.Perm
use randevu.Base.{
  Option, none, some, List, [], ◌∷◌, ◌++◌, Str, str_eq, str_eq_iff, str_eq_refl, str_lt,
  str_lt_trans, str_lt_irrefl, starts_with, Bool, true, false, not, if◌then◌else◌, ◌≡◌, refl, arith,
  ap, ◌∙◌, inl, inr, Bool-cases, Option-cases, All, is_some, subst,
}
use randevu.Relay.Store.{
  Store, get, put, keys, insert_key, sort_from, sort_keys, entry, collect, list,
}
use randevu.Relay.Store.Laws.{get-put_self, get-put_ne, keys-put_new, keys-put_old}

-- A key list in the order that `sort` leaves: no later key is smaller.
abbrev Sorted : List Str → Type 0
Sorted [] = Unit
Sorted (j ∷ js) = All (λ i. str_lt i j ≡ false) js × Sorted js

str_lt_asym : (a b : Str) → str_lt a b ≡ true → str_lt b a ≡ false
str_lt_asym a b h = ground (arith, str_lt_trans a b a, str_lt_irrefl a)

All-insert {ℓ} :
    (P : Str → Type ℓ) (k : Str) (ks : List Str) → P k → All P ks → All P (insert_key k ks)
unfolding insert_key
All-insert P k [] p h = (p, tt)
All-insert P k (j ∷ js) p h = elim (Bool-cases (str_lt k j)) [
  | inl e ↦ rw e (p, h)
  | inr e ↦ rw e (h.0, All-insert P k js p h.1)
]

All-sort_from {ℓ} :
    (P : Str → Type ℓ) (acc ks : List Str) → All P acc → All P ks → All P (sort_from acc ks)
unfolding sort_from
All-sort_from P acc [] h k = h
All-sort_from P acc (x ∷ ks) h k =
    All-sort_from P (insert_key x acc) ks (All-insert P x acc k.0 h) k.1

All_below :
    (k j : Str) (js : List Str)
    → str_lt k j ≡ true
    → All (λ i. str_lt i j ≡ false) js
    → All (λ i. str_lt i k ≡ false) js
All_below k j [] h a = tt
All_below k j (i ∷ js) h a = (ground (arith, str_lt_trans i k j, a.0), All_below k j js h a.1)

insert-Sorted : (k : Str) (ks : List Str) → Sorted ks → Sorted (insert_key k ks)
unfolding insert_key
insert-Sorted k [] s = (tt, tt)
insert-Sorted k (j ∷ js) s = elim (Bool-cases (str_lt k j)) [
  | inl e ↦ rw e ((str_lt_asym k j e, All_below k j js e s.0), s)
  | inr e ↦ rw e (All-insert (λ i. str_lt i j ≡ false) k js e s.0, insert-Sorted k js s.1)
]

sort_from-Sorted : (acc ks : List Str) → Sorted acc → Sorted (sort_from acc ks)
unfolding sort_from
sort_from-Sorted acc [] s = s
sort_from-Sorted acc (k ∷ ks) s = sort_from-Sorted (insert_key k acc) ks (insert-Sorted k acc s)

sort_from-snoc :
    (acc ks : List Str) (k : Str) → sort_from acc (ks ++ k ∷ []) ≡ insert_key k (sort_from acc ks)
unfolding sort_from
sort_from-snoc acc [] k = refl
sort_from-snoc acc (j ∷ ks) k = sort_from-snoc (insert_key j acc) ks k

abbrev PrefixedBelow : Str → Str → List Str → Type 0
PrefixedBelow k p = All (λ j. starts_with j p ≡ true → str_lt j k ≡ true)

above_none :
    (k p : Str) (j : Str) (js : List Str)
    → str_lt k j ≡ true
    → All (λ i. str_lt i j ≡ false) js
    → PrefixedBelow k p js
    → All (λ i. starts_with i p ≡ false) js
above_none k p j [] h s b = tt
above_none k p j (i ∷ js) h s b =
    (ground (arith, b.0, str_lt_trans i k j, s.0), above_none k p j js h s.1 b.1)

module _ {ℓ} {V : Type ℓ} where
  keys_ne : (m : Store V) (k : Str) → get m k ≡ none → All (λ j. str_eq k j ≡ false) (keys m)
  unfolding get keys
  keys_ne [] k h = tt
  keys_ne ((j, v) ∷ m) k h =
      (ground (arith, str_eq_iff k j, str_eq_iff j k), keys_ne m k (ground arith))

  -- A key outside the prefix is not listed.
  collect-put_other :
      (m : Store V) (k : Str) (v : V) (p : Str) (start : Option Str) (ks : List Str)
      → starts_with k p ≡ false
      → collect (put m k v) p start ks ≡ collect m p start ks
  unfolding collect
  collect-put_other m k v p start [] h = refl
  collect-put_other m k v p start (j ∷ ks) h = elim (Bool-cases (str_eq k j)) [
    | inl e ↦
        let s : starts_with j p ≡ false =
          subst (λ t. starts_with t p ≡ false) ((str_eq_iff k j).0 e) h in
        rw s (collect-put_other m k v p start ks h)
    | inr e ↦ rw (get-put_ne m k j v e, collect-put_other m k v p start ks h)
  ]

  collect-insert_other :
      (m : Store V) (k p : Str) (start : Option Str) (ks : List Str)
      → starts_with k p ≡ false
      → collect m p start (insert_key k ks) ≡ collect m p start ks
  unfolding collect insert_key
  collect-insert_other m k p start [] h = rw h
  collect-insert_other m k p start (j ∷ ks) h = elim (Bool-cases (str_lt k j)) [
    | inl e ↦ rw (e, h)
    | inr e ↦ rw e (rw (collect-insert_other m k p start ks h))
  ]

  -- A write outside a prefix leaves its listing alone.
  pub list-put_other :
      (m : Store V) (k : Str) (v : V) (p : Str) (start : Option Str)
      → starts_with k p ≡ false
      → list (put m k v) p start ≡ list m p start
  unfolding list
  list-put_other m k v p start h = elim (Option-cases (get m k)) [
    | inl e ↦ rw (collect-put_other m k v p start (sort_keys (keys (put m k v))) h) (
        rw (keys-put_new m k v e, sort_from-snoc [] (keys m) k)
          (collect-insert_other m k p start (sort_keys (keys m)) h))
    | inr (w, e) ↦
        rw (collect-put_other m k v p start (sort_keys (keys (put m k v))) h)
          (rw (keys-put_old m k v w e))
  ]

module _ {ℓ} {V : Type ℓ} where
  collect-put_new :
      (m : Store V) (k : Str) (v : V) (p : Str) (start : Option Str) (ks : List Str)
      → All (λ j. str_eq k j ≡ false) ks
      → collect (put m k v) p start ks ≡ collect m p start ks
  unfolding collect
  collect-put_new m k v p start [] h = refl
  collect-put_new m k v p start (j ∷ ks) h =
      rw (get-put_ne m k j v h.0, collect-put_new m k v p start ks h.1)

  collect-insert-perm :
      (m : Store V) (k p : Str) (v : V) (ks : List Str)
      → starts_with k p ≡ true
      → get m k ≡ some v
      → Perm (collect m p none (insert_key k ks)) ((k, v) ∷ collect m p none ks)
  unfolding collect insert_key
  collect-insert-perm m k p v [] h e = rw (h, e) (Perm.refl _)
  collect-insert-perm m k p v (j ∷ ks) h e = elim (Bool-cases (str_lt k j)) [
    | inl lt ↦ rw (lt, h, e) (Perm.refl _)
    | inr ge ↦ rw ge (under (starts_with j p) (get m j) (collect-insert-perm m k p v ks h e))
  ]
    where
      under :
          (b : Bool) (o : Option V)
          → Perm (collect m p none (insert_key k ks)) ((k, v) ∷ collect m p none ks)
          → Perm
              (if not b
                then collect m p none (insert_key k ks)
                else entry j o (collect m p none (insert_key k ks)))
              ((k, v) ∷ (if not b then collect m p none ks else entry j o (collect m p none ks)))
      under true (some w) ih = Perm.trans (Perm.cons (j, w) ih) (Perm.swap (k, v) (j, w) _)
      under true none ih = ih
      under false o ih = ih

  -- A new key under the prefix adds its entry to the listing.
  pub list-put_new :
      (m : Store V) (k p : Str) (v : V)
      → starts_with k p ≡ true
      → get m k ≡ none
      → Perm (list (put m k v) p none) ((k, v) ∷ list m p none)
  unfolding list
  list-put_new m k p v h e =
      rw (keys-put_new m k v e, sort_from-snoc [] (keys m) k)
        (subst
          (λ t. Perm (collect (put m k v) p none (insert_key k (sort_keys (keys m)))) ((k, v) ∷ t))
          (collect-put_new m k v p none (sort_keys (keys m))
            (All-sort_from (λ j. str_eq k j ≡ false) [] (keys m) tt (keys_ne m k e)))
          (collect-insert-perm (put m k v) k p v (sort_keys (keys m)) h (get-put_self m k v)))

  -- Every listed key is below k.
  abbrev pub ListedBelow : Str → List (Str × V) → Type 0
  ListedBelow k = All (λ e. str_lt e.0 k ≡ true)

  collect-none :
      (m : Store V) (p : Str) (ks : List Str)
      → All (λ j. starts_with j p ≡ false) ks
      → collect m p none ks ≡ []
  unfolding collect
  collect-none m p [] h = refl
  collect-none m p (j ∷ ks) h = rw (h.0, collect-none m p ks h.1)

  collect-insert_last :
      (m : Store V) (k p : Str) (v : V) (ks : List Str)
      → starts_with k p ≡ true
      → get m k ≡ some v
      → Sorted ks
      → PrefixedBelow k p ks
      → collect m p none (insert_key k ks) ≡ collect m p none ks ++ (k, v) ∷ []
  unfolding collect insert_key
  collect-insert_last m k p v [] h e s b = rw (h, e)
  collect-insert_last m k p v (j ∷ ks) h e s b = elim (Bool-cases (str_lt k j)) [
    | inl lt ↦
        let off : starts_with j p ≡ false = ground (arith, b.0, str_lt_asym k j lt) in
        rw (lt, h, e) (rw (off, collect-none m p ks (above_none k p j ks lt s.0 b.1)))
    | inr ge ↦
        rw ge (rw (collect-insert_last m k p v ks h e s.1 b.1) (move (starts_with j p) (get m j)))
  ]
    where
      move :
          (c : Bool) (o : Option V)
          → (if not c
              then collect m p none ks ++ (k, v) ∷ []
              else entry j o (collect m p none ks ++ (k, v) ∷ []))
            ≡ (if not c then collect m p none ks else entry j o (collect m p none ks))
              ++ (k, v) ∷ []
      move true (some w) = refl
      move true none = refl
      move false o = refl

  keys_listed :
      (m : Store V) (k p : Str) (ks : List Str)
      → All (λ j. is_some (get m j) ≡ true) ks
      → ListedBelow k (collect m p none ks)
      → PrefixedBelow k p ks
  unfolding collect
  keys_listed m k p [] a h = tt
  keys_listed m k p (j ∷ ks) a h = (λ e. ground arith, keys_listed m k p ks a.1 (ground arith))

  found_cons :
      (i : Str) (w : V) (m : Store V) (ks : List Str)
      → All (λ j. is_some (get m j) ≡ true) ks
      → All (λ j. is_some (get ((i, w) ∷ m) j) ≡ true) ks
  unfolding get
  found_cons i w m [] a = tt
  found_cons i w m (j ∷ ks) a = (ground (arith, a.0), found_cons i w m ks a.1)

  keys_found : (m : Store V) → All (λ j. is_some (get m j) ≡ true) (keys m)
  unfolding keys get
  keys_found [] = tt
  keys_found ((i, w) ∷ m) = (rw (str_eq_refl i), found_cons i w m (keys m) (keys_found m))

  -- A new key under the prefix that is above the listed ones goes to the end of the listing.
  pub list-put_last :
      (m : Store V) (k p : Str) (v : V)
      → starts_with k p ≡ true
      → get m k ≡ none
      → ListedBelow k (list m p none)
      → list (put m k v) p none ≡ list m p none ++ (k, v) ∷ []
  unfolding list
  list-put_last m k p v h e b =
      rw (keys-put_new m k v e, sort_from-snoc [] (keys m) k)
        (collect-insert_last (put m k v) k p v (sort_keys (keys m)) h (get-put_self m k v)
            (sort_from-Sorted [] (keys m) tt)
            (keys_listed m k p (sort_keys (keys m))
              (All-sort_from (λ j. is_some (get m j) ≡ true) [] (keys m) tt (keys_found m)) b)
          ∙ ap (λ t. t ++ (k, v) ∷ [])
              (collect-put_new m k v p none (sort_keys (keys m))
                (All-sort_from (λ j. str_eq k j ≡ false) [] (keys m) tt (keys_ne m k e))))

  -- A range read: the entries whose key is not below the start.
  unfoldable pub from_key : Str → List (Str × V) → List (Str × V)
  from_key s [] = []
  from_key s (e ∷ es) = let rest = from_key s es in if str_lt e.0 s then rest else e ∷ rest

  collect-from_key :
      (m : Store V) (p s : Str) (ks : List Str)
      → collect m p (some s) ks ≡ from_key s (collect m p none ks)
  unfolding collect from_key
  collect-from_key m p s [] = refl
  collect-from_key m p s (j ∷ ks) = ground (arith, collect-from_key m p s ks)

  pub list-from_key : (m : Store V) (p s : Str) → list m p (some s) ≡ from_key s (list m p none)
  unfolding list
  list-from_key m p s = collect-from_key m p s (sort_keys (keys m))

  pub list-nil : (p : Str) (start : Option Str) → list {V = V} [] p start ≡ []
  unfolding list
  list-nil p start = refl
