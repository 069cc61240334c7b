-- ===== src/Relay/Store/Laws.antt =====
-- What reads see of a write, key by key.
use randevu.Base.{
  none, some, [], ◌∷◌, ◌++◌, Str, str_eq, str_eq_iff, str_eq_refl, false, if◌then◌else◌, ◌≡◌, refl,
  arith,
}
use randevu.Relay.Store.{Store, get, put, keys}

module _ {ℓ} {V : Type ℓ} where
  -- A read after a write: the value written at its key, and the old one at any other.
  pub get-put :
      (m : Store V) (k j : Str) (v : V)
      → get (put m k v) j ≡ (if str_eq k j then some v else get m j)
  unfolding get put
  get-put [] k j v = refl
  get-put ((i, w) ∷ m) k j v =
      ground (arith, get-put m k j v, str_eq_iff k j, str_eq_iff i k, str_eq_iff i j)

  pub get-put_self : (m : Store V) (k : Str) (v : V) → get (put m k v) k ≡ some v
  get-put_self m k v = rw (get-put m k k v, str_eq_refl k)

  pub get-put_ne :
      (m : Store V) (k j : Str) (v : V) → str_eq k j ≡ false → get (put m k v) j ≡ get m j
  get-put_ne m k j v h = rw (get-put m k j v, h)

  -- A write to a new key adds it at the end, and one to a key that is there keeps the keys.
  pub keys-put_new :
      (m : Store V) (k : Str) (v : V) → get m k ≡ none → keys (put m k v) ≡ keys m ++ k ∷ []
  unfolding get put keys
  keys-put_new [] k v h = refl
  keys-put_new ((i, w) ∷ m) k v h = ground (arith, keys-put_new m k v)

  pub keys-put_old :
      (m : Store V) (k : Str) (v w : V) → get m k ≡ some w → keys (put m k v) ≡ keys m
  unfolding get put keys
  keys-put_old [] k v w h = ground arith
  keys-put_old ((i, u) ∷ m) k v w h = ground (arith, keys-put_old m k v w)

  pub get-nil : (k : Str) → get {V = V} [] k ≡ none
  unfolding get
  get-nil k = refl
