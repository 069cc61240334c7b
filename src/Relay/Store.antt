-- ===== src/Relay/Store.antt =====
-- The key-value store under a session: `KvStore` and `MemoryKvStore` of apps/relay/src/store.ts.
-- A JavaScript `Map` is its entries in the order of insertion; a write to a key that is there
-- keeps its place.
pub mod Laws
pub mod Listing
pub mod Ranged
use randevu.Base.{
  Option, none, some, List, [], ◌∷◌, Str, str_eq, str_lt, starts_with, Bool, true, false, not, ◌&&◌,
  if◌then◌else◌, map,
}

abbrev pub Store {ℓ} : Type ℓ → Type ℓ
Store V = List (Str × V)

-- keys.sort(): strings by code units
pub insert_key : Str → List Str → List Str
insert_key k [] = k ∷ []
insert_key k (j ∷ js) = if str_lt k j then k ∷ j ∷ js else j ∷ insert_key k js

sort_from : List Str → List Str → List Str
sort_from acc [] = acc
sort_from acc (k ∷ ks) = sort_from (insert_key k acc) ks

pub sort_keys : List Str → List Str
unfolding insert_key sort_from
sort_keys ks = sort_from [] ks

-- `start !== undefined && key < start`
abbrev pub before : Str → Option Str → Bool
before k none = false
before k (some start) = str_lt k start

module _ {ℓ} {V : Type ℓ} where
  unfoldable pub get : Store V → Str → Option V
  get [] k = none
  get ((j, v) ∷ m) k = if str_eq j k then some v else get m k

  unfoldable pub put : Store V → Str → V → Store V
  put [] k v = (k, v) ∷ []
  put ((j, w) ∷ m) k v = if str_eq j k then (j, v) ∷ m else (j, w) ∷ put m k v

  abbrev delete : Store V → Str → Store V
  delete [] k = []
  delete ((j, w) ∷ m) k = if str_eq j k then m else (j, w) ∷ delete m k

  pub keys : Store V → List Str
  keys [] = []
  keys ((j, w) ∷ m) = j ∷ keys m

  -- out.set(key, map.get(key)): the keys are distinct, so each adds an entry
  abbrev pub entry : Str → Option V → List (Str × V) → List (Str × V)
  entry k none out = out
  entry k (some v) out = (k, v) ∷ out

  -- the loop of `list` over the sorted keys
  pub collect : Store V → Str → Option Str → List Str → List (Str × V)
  collect m prefix start [] = []
  collect m prefix start (k ∷ ks) =
      let out = collect m prefix start ks in
      if not (starts_with k prefix)
      then out
      else if before k start
      then out
      else entry k (get m k) out

  pub list : Store V → Str → Option Str → List (Str × V)
  unfolding sort_keys keys collect
  list m prefix start = collect m prefix start (sort_keys (keys m))
