-- ===== src/Relay/Store/Ranged.antt =====
-- Numbered messages under keys that are ordered as their numbers are, and range reads of them.
use randevu.Base.{
  ℕ, ◌+◌, ◌<◌, ◌⊎◌, Bool, true, false, Option, none, some, List, [], ◌∷◌, map, length, drop, All,
  Str, str_lt, str_lt_irrefl, str_lt_trans, ltb, ltb→lt, ◌≡◌, refl, ap, ◌∙◌, arith, Bool-cases, inl,
  inr, if◌then◌else◌,
}
use native.Mathlib.Decide.{dec_lt}
use randevu.Base.Numbered.{newer_by, newer_by-tail, IsNumbered}
use randevu.Relay.Store.Listing.{list-from_key, from_key}
use randevu.Relay.Store.{Store, list}

-- Entries under keys; what a listing's values are is a function with two laws.
pub record Keyed (M V : Type 0) : Type 0 where
  pub seq : M → ℕ
  pub key : ℕ → Str
  pub limit : ℕ
  pub value : M → V
  pub values : List (Str × V) → List M
  pub none_valued : values [] ≡ []
  pub one_valued :
      (k : Str) (m : M) (es : List (Str × V)) → values ((k, value m) ∷ es) ≡ m ∷ values es
  pub ordered : (a b : ℕ) → a < b → b < limit → str_lt (key a) (key b) ≡ true

module _ {M V : Type 0} (k : Keyed M V) where
  abbrev pub entry_by : M → Str × V
  entry_by m = (k.key (k.seq m), k.value m)

  -- The keys of a log are below those of later numbers.
  pub below-IsNumbered :
      (n later : ℕ) (log : List M)
      → IsNumbered k.seq n log
      → n + length log < later
      → later < k.limit
      → All (λ e. str_lt e.0 (k.key later) ≡ true) (map entry_by log)
  below-IsNumbered n later [] h p q = tt
  below-IsNumbered n later (m ∷ ms) h p q = (
    k.ordered (k.seq m) later (omega arith) q,
    below-IsNumbered (n + 1) later ms h.1 (omega arith) q,
  )

  -- A later message is not before the start of the range.
  not_before :
      (s after : ℕ) → after < s → s < k.limit → str_lt (k.key s) (k.key (after + 1)) ≡ false
  not_before s after lt room = elim (dec_lt (after + 1) s) [
    | yes p ↦ ground (
      arith,
      k.ordered (after + 1) s p room,
      str_lt_trans (k.key s) (k.key (after + 1)) (k.key s),
      str_lt_irrefl (k.key s),
    )
    | no p ↦
        let e : s ≡ after + 1 = omega arith in
        ap (λ t. str_lt (k.key t) (k.key (after + 1))) e ∙ str_lt_irrefl (k.key (after + 1))
  ]

  newer_by-passed :
      (after : ℕ) (m : M) (b : Bool) (es : List (Str × V))
      → ltb after (k.seq m) ≡ false
      → newer_by k.seq after (k.values (if b then es else entry_by m ∷ es))
        ≡ newer_by k.seq after (k.values es)
  unfolding newer_by
  newer_by-passed after m true es h = refl
  newer_by-passed after m false es h = rw (k.one_valued (k.key (k.seq m)) m es, h) refl

  -- A range read drops only messages that the cursor has passed.
  newer_by-from_key :
      (n after : ℕ) (log : List M)
      → IsNumbered k.seq n log
      → n + length log < k.limit
      → newer_by k.seq after (k.values (from_key (k.key (after + 1)) (map entry_by log)))
        ≡ newer_by k.seq after log
  unfolding newer_by from_key
  newer_by-from_key n after [] h room = rw k.none_valued refl
  newer_by-from_key n after (m ∷ ms) h room = elim (Bool-cases (ltb after (k.seq m))) [
    | inl late ↦
        rw
          (
            not_before (k.seq m) after (ltb→lt after (k.seq m) late) (omega arith),
            k.one_valued (k.key (k.seq m)) m (from_key (k.key (after + 1)) (map entry_by ms)),
            late,
            newer_by-from_key (n + 1) after ms h.1 (omega arith),
          )
          refl
    | inr old ↦
        newer_by-passed after m (str_lt (k.key (k.seq m)) (k.key (after + 1))) _ old
        ∙ rw old (newer_by-from_key (n + 1) after ms h.1 (omega arith))
  ]

  values-entries : (log : List M) → k.values (map entry_by log) ≡ log
  values-entries [] = k.none_valued
  values-entries (m ∷ ms) =
      k.one_valued (k.key (k.seq m)) m (map entry_by ms) ∙ ap (λ t. m ∷ t) (values-entries ms)

  -- A read from the start, or from the key behind the cursor, finds what is behind the cursor.
  pub newer_by-list :
      (st : Store V) (prefix : Str) (log : List M) (after : ℕ) (start : Option Str)
      → list st prefix none ≡ map entry_by log
      → IsNumbered k.seq 0 log
      → length log < k.limit
      → (start ≡ none) ⊎ (start ≡ some (k.key (after + 1)))
      → newer_by k.seq after (k.values (list st prefix start)) ≡ drop after log
  newer_by-list st prefix log after start listed h room (inl e) =
      rw (e, listed, values-entries log) (newer_by-tail k.seq after log h)
  newer_by-list st prefix log after start listed h room (inr e) =
      rw (e, list-from_key st prefix (k.key (after + 1)), listed)
        (newer_by-from_key 0 after log h (omega arith) ∙ newer_by-tail k.seq after log h)
