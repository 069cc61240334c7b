-- ===== src/Core/Message/Chain.antt =====
-- The running transcript hash: two message sequences with one head are the same, or they show a
-- collision of the hash.
use mathlib.Core.List.{
  Mem, reverse, reverse-cons, reverse-reverse, mem-append_left, mem-append_right, mem-cons_self,
}
use mathlib.Core.Path.{subst₂}
use native.Mathlib.Decide.{ℕ_discrete}
use randevu.Base.{
  All, subst, ℕ, Option, none, some, List, [], ◌∷◌, ◌++◌, length, length-append, ◌≡◌, ◌≢◌, refl,
  sym, ap, ◌∙◌, arith, ◌⊎◌, inl, inr, cons_head, cons_tail,
}
use randevu.Noble.{Noble, Bytes}
use randevu.Core.Message.{or_no_bytes, chain_hash}

-- The head after a sequence of signing bytes: what the verifiers fold, message by message.
unfoldable pub head_after : Noble → Option Bytes → List Bytes → Option Bytes
head_after noble head [] = head
head_after noble head (m ∷ ms) = head_after noble (some (chain_hash noble head m)) ms

-- What the hash is applied to along the way.
unfoldable pub inputs : Noble → Option Bytes → List Bytes → List Bytes
inputs noble head [] = []
inputs noble head (m ∷ ms) =
    (or_no_bytes head ++ m) ∷ inputs noble (some (chain_hash noble head m)) ms

-- A collision among the inputs of two transcripts.
abbrev pub CollisionIn : Noble → List Bytes → List Bytes → Type 0
CollisionIn noble xs ys =
    (x : Bytes) × (y : Bytes) × Mem x xs × Mem y ys × (x ≢ y) × (noble.sha256 x ≡ noble.sha256 y)

pub head_after-snoc :
    (noble : Noble) (head : Option Bytes) (ms : List Bytes) (m : Bytes)
    → head_after noble head (ms ++ m ∷ []) ≡ some (chain_hash noble (head_after noble head ms) m)
unfolding head_after
head_after-snoc noble head [] m = refl
head_after-snoc noble head (x ∷ ms) m = head_after-snoc noble (some (chain_hash noble head x)) ms m

inputs-snoc :
    (noble : Noble) (head : Option Bytes) (ms : List Bytes) (m : Bytes)
    → inputs noble head (ms ++ m ∷ [])
      ≡ inputs noble head ms ++ (or_no_bytes (head_after noble head ms) ++ m) ∷ []
unfolding inputs head_after
inputs-snoc noble head [] m = refl
inputs-snoc noble head (x ∷ ms) m =
    ap (λ t. (or_no_bytes head ++ x) ∷ t) (inputs-snoc noble (some (chain_hash noble head x)) ms m)

-- Two splits of one byte string with ends of one length are the same split.
append-injective : (p q m n : Bytes) → length m ≡ length n → p ++ m ≡ q ++ n → (p ≡ q) × (m ≡ n)
append-injective [] [] m n l e = (refl, e)
append-injective [] (b ∷ q) m n l e =
    absurd (omega (arith, ap (length {A = ℕ}) e, length-append {0} q n))
append-injective (a ∷ p) [] m n l e =
    absurd (omega (arith, ap (length {A = ℕ}) e, length-append {0} p m))
append-injective (a ∷ p) (b ∷ q) m n l e =
    let (s, t) = append-injective p q m n l (cons_tail e) in (cc (s, cons_head e), t)

some_same : {x y : Bytes} → some x ≡ some y → x ≡ y
some_same e = cc

head-nil : (noble : Noble) → head_after noble none (reverse []) ≡ none
unfolding head_after
head-nil noble = refl

head-cons :
    (noble : Noble) (m : Bytes) (ms : List Bytes)
    → head_after noble none (reverse (m ∷ ms))
      ≡ some (chain_hash noble (head_after noble none (reverse ms)) m)
head-cons noble m ms =
    ap (head_after noble none) (reverse-cons m ms) ∙ head_after-snoc noble none (reverse ms) m

inputs-cons :
    (noble : Noble) (m : Bytes) (ms : List Bytes)
    → inputs noble none (reverse (m ∷ ms))
      ≡ inputs noble none (reverse ms)
        ++ (or_no_bytes (head_after noble none (reverse ms)) ++ m) ∷ []
inputs-cons noble m ms =
    ap (inputs noble none) (reverse-cons m ms) ∙ inputs-snoc noble none (reverse ms) m

last_input :
    (noble : Noble) (m : Bytes) (ms : List Bytes)
    → Mem
        (or_no_bytes (head_after noble none (reverse ms)) ++ m)
        (inputs noble none (reverse (m ∷ ms)))
last_input noble m ms =
    subst (Mem _) (sym (inputs-cons noble m ms))
      (mem-append_right (inputs noble none (reverse ms)) mem-cons_self)

earlier_input :
    (noble : Noble) (x m : Bytes) (ms : List Bytes)
    → Mem x (inputs noble none (reverse ms))
    → Mem x (inputs noble none (reverse (m ∷ ms)))
earlier_input noble x m ms h = subst (Mem x) (sym (inputs-cons noble m ms)) (mem-append_left _ h)

extend :
    (noble : Noble) {m n : Bytes} {ms ns : List Bytes}
    → m ≡ n
    → (ms ≡ ns)
      ⊎ CollisionIn noble (inputs noble none (reverse ms)) (inputs noble none (reverse ns))
    → (m ∷ ms ≡ n ∷ ns)
      ⊎ CollisionIn noble
          (inputs noble none (reverse (m ∷ ms)))
          (inputs noble none (reverse (n ∷ ns)))
extend noble e (inl p) = inl (cc (e, p))
extend noble {m} {n} {ms} {ns} e (inr (x, y, hx, hy, d, h)) =
    inr (x, y, earlier_input noble x m ms hx, earlier_input noble y n ns hy, d, h)

All-snoc :
    (ms : List Bytes) (m : Bytes)
    → All (λ x. length x ≡ 32) ms
    → length m ≡ 32
    → All (λ x. length x ≡ 32) (ms ++ m ∷ [])
All-snoc [] m h e = (e, tt)
All-snoc (x ∷ ms) m h e = (h.0, All-snoc ms m h.1 e)

All-reverse :
    (ms : List Bytes) → All (λ x. length x ≡ 32) ms → All (λ x. length x ≡ 32) (reverse ms)
All-reverse [] h = tt
All-reverse (m ∷ ms) h =
    subst (All (λ x. length x ≡ 32)) (sym (reverse-cons m ms))
      (All-snoc (reverse ms) m (All-reverse ms h.1) h.0)

pub Bytes-discrete : Discrete Bytes
Bytes-discrete = hlevel ℕ_discrete

module _ (noble : Noble) (digest : (b : Bytes) → length (noble.sha256 b) ≡ 32) where
  same_head :
      (a b : Option Bytes)
      → ((x : Bytes) → a ≡ some x → length x ≡ 32)
      → ((x : Bytes) → b ≡ some x → length x ≡ 32)
      → or_no_bytes a ≡ or_no_bytes b
      → a ≡ b
  same_head none none h k e = refl
  same_head none (some y) h k e = absurd (omega (arith, k y refl, ap (length {A = ℕ}) e))
  same_head (some x) none h k e = absurd (omega (arith, h x refl, ap (length {A = ℕ}) e))
  same_head (some x) (some y) h k e = ap some e

  head-digest :
      (ms : List Bytes) (x : Bytes) → head_after noble none (reverse ms) ≡ some x → length x ≡ 32
  unfolding chain_hash
  head-digest [] x e = unfold head_after in cc
  head-digest (m ∷ ms) x e =
      let d = digest (or_no_bytes (head_after noble none (reverse ms)) ++ m) in
      ap (length {A = ℕ}) (some_same (sym e ∙ head-cons noble m ms)) ∙ d

  binds-reversed :
      (ms ns : List Bytes)
      → All (λ m. length m ≡ 32) ms
      → All (λ m. length m ≡ 32) ns
      → head_after noble none (reverse ms) ≡ head_after noble none (reverse ns)
      → (ms ≡ ns)
        ⊎ CollisionIn noble (inputs noble none (reverse ms)) (inputs noble none (reverse ns))
  unfolding chain_hash
  binds-reversed [] [] h k e = inl refl
  binds-reversed [] (n ∷ ns) h k e = cc (e, head-cons noble n ns, head-nil noble)
  binds-reversed (m ∷ ms) [] h k e = cc (e, head-cons noble m ms, head-nil noble)
  binds-reversed (m ∷ ms) (n ∷ ns) h k e =
      let a = head_after noble none (reverse ms) in
      let b = head_after noble none (reverse ns) in
      let hashes : noble.sha256 (or_no_bytes a ++ m) ≡ noble.sha256 (or_no_bytes b ++ n) =
        some_same (sym (head-cons noble m ms) ∙ e ∙ head-cons noble n ns) in
      elim (Bytes-discrete (or_no_bytes a ++ m) (or_no_bytes b ++ n)) [
        | no differ ↦ inr (
          or_no_bytes a ++ m,
          or_no_bytes b ++ n,
          last_input noble m ms,
          last_input noble n ns,
          differ,
          hashes,
        )
        | yes p ↦
            let (heads, last) =
              append-injective (or_no_bytes a) (or_no_bytes b) m n (h.0 ∙ sym k.0) p in
            extend noble last
              (binds-reversed ms ns h.1 k.1 (same_head a b (head-digest ms) (head-digest ns) heads))
      ]

-- Two message sequences that fold to one head are the same sequence, or among the strings hashed
-- on the way there are two that collide. Signing bytes and hashes have 32 bytes.
pub chain-binds :
    (noble : Noble) (ms ns : List Bytes)
    → ((b : Bytes) → length (noble.sha256 b) ≡ 32)
    → All (λ m. length m ≡ 32) ms
    → All (λ m. length m ≡ 32) ns
    → head_after noble none ms ≡ head_after noble none ns
    → (ms ≡ ns) ⊎ CollisionIn noble (inputs noble none ms) (inputs noble none ns)
chain-binds noble ms ns digest h k e =
    let there = reverse-reverse ms in
    let back = reverse-reverse ns in
    forward (
      subst₂
        (λ u v.
          (reverse ms ≡ reverse ns) ⊎ CollisionIn noble (inputs noble none u) (inputs noble none v))
        there back
        (binds-reversed noble digest (reverse ms) (reverse ns) (All-reverse ms h) (All-reverse ns k)
          (ap (head_after noble none) there ∙ e ∙ ap (head_after noble none) (sym back))))
  where
    forward :
        (reverse ms ≡ reverse ns) ⊎ CollisionIn noble (inputs noble none ms) (inputs noble none ns)
        → (ms ≡ ns) ⊎ CollisionIn noble (inputs noble none ms) (inputs noble none ns)
    forward (inl p) = inl (sym (reverse-reverse ms) ∙ ap reverse p ∙ reverse-reverse ns)
    forward (inr c) = inr c
