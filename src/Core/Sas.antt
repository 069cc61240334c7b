-- ===== src/Core/Sas.antt =====
-- The short authentication string: packages/core/src/sas.ts. A `Uint8Array` is its list of bytes.
pub mod Order
use Prim.Native.Nat.{bit_or}
use randevu.Base.{
  ℕ, zero, suc, ◌+◌, ◌-◌, ◌*◌, ◌%◌, ◌^◌, min, max, Bool, true, false, List, [], ◌∷◌, ◌++◌, length,
  Str, text, decimal, pad_start, if◌then◌else◌, leb, ◌==◌,
}
use randevu.Noble.{Noble, Bytes}

-- The sign of a JavaScript number that a comparator returns.
pub data Sign : Type 0 where
  less same more : Sign

-- The sign of a - b.
abbrev pub sign_of : ℕ → ℕ → Sign
sign_of a b = if leb a b then (if a == b then same else less) else more

-- `d !== 0` returns d from the loop; after it, a.length - b.length
abbrev pub or_else : Sign → Sign → Sign
or_else same s = s
or_else less s = less
or_else more s = more

-- The loop of `compareBytes` over the common prefix of a and b; `rest` is the length comparison.
compare_from : Sign → Bytes → Bytes → Sign
compare_from rest [] b = rest
compare_from rest (x ∷ a) [] = rest
compare_from rest (x ∷ a) (y ∷ b) = or_else (sign_of x y) (compare_from rest a b)

unfoldable pub compare_bytes : Bytes → Bytes → Sign
unfolding compare_from
compare_bytes a b = compare_from (sign_of (length a) (length b)) a b

-- `sort(compareBytes)`, which is stable
abbrev pub is_negative : Sign → Bool
is_negative less = true
is_negative _ = false

unfoldable pub insert_bytes : Bytes → List Bytes → List Bytes
insert_bytes k [] = k ∷ []
insert_bytes k (j ∷ js) =
    if is_negative (compare_bytes j k) then j ∷ insert_bytes k js else k ∷ j ∷ js

unfoldable pub sort_bytes : List Bytes → List Bytes
unfolding insert_bytes
sort_bytes [] = []
sort_bytes (k ∷ ks) = insert_bytes k (sort_bytes ks)

abbrev pub concat : List Bytes → Bytes
concat [] = []
concat (b ∷ bs) = b ++ concat bs

-- `h[i]`, where a byte that is not there counts as 0 under `<<` and `|`
abbrev pub byte_at : Bytes → ℕ → ℕ
byte_at [] i = 0
byte_at (b ∷ bs) zero = b
byte_at (b ∷ bs) (suc i) = byte_at bs i

-- ((h[0] << 24) | (h[1] << 16) | (h[2] << 8) | h[3]) >>> 0
unfoldable pub word_of : Bytes → ℕ
word_of h =
    bit_or (bit_or (bit_or (byte_at h 0 * 2 ^ 24) (byte_at h 1 * 2 ^ 16)) (byte_at h 2 * 2 ^ 8))
      (byte_at h 3)
    % 2 ^ 32

abbrev pub places : ℕ → ℕ
places digits = max 1 (min 9 digits)

unfoldable pub compute_sas : Noble → Str → List Bytes → ℕ → Str
unfolding sort_bytes word_of
compute_sas noble session_id identity_public_keys digits =
    let sorted = sort_bytes identity_public_keys in
    let h =
      noble.sha256 (noble.utf8_to_bytes (text "randevu/sas/v1|" ++ session_id) ++ concat sorted) in
    pad_start (places digits) (decimal (word_of h % 10 ^ places digits))
