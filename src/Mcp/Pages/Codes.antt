-- ===== src/Mcp/Pages/Codes.antt =====
-- A room code comes through the invitation page's route as it is.
use randevu.Base.{
  ℕ, zero, suc, ◌+◌, ◌*◌, ◌/◌, ◌%◌, ◌≤◌, ◌<◌, true, Option, some, List, [], ◌∷◌, ◌++◌, Str, text,
  take, length, pad_start, ltb, ◌≡◌, refl, ap, All, arith, Bool-cases, inl, inr,
}
use randevu.Mcp.Pages.Landing.{landing_page}
use randevu.Mcp.Pages.Route.{
  hex_digit, radix_hex, code_digits, new_room_code, is_code_char, code_chars, PageUrl, page,
  or_empty, raw_code, route_static,
}

hex_digit-is_code_char : (d : ℕ) → d < 16 → is_code_char (hex_digit d) ≡ true
hex_digit-is_code_char d h = ground arith

-- The two digits of a byte.
abbrev IsPair : Str → Type 0
IsPair s = (c : ℕ) × (d : ℕ) × (s ≡ c ∷ d ∷ []) × (is_code_char c ≡ true) × (is_code_char d ≡ true)

byte-IsPair : (b : ℕ) → b < 256 → IsPair (pad_start 2 (radix_hex b))
unfolding pad_start
byte-IsPair b h = elim (Bool-cases (ltb b 16)) [
  | inl small ↦ (48, hex_digit b, rw small refl, refl, hex_digit-is_code_char b (ground arith))
  | inr large ↦ (
    hex_digit (b / 16),
    hex_digit (b % 16),
    rw large refl,
    hex_digit-is_code_char (b / 16) (omega arith),
    hex_digit-is_code_char (b % 16) (omega arith),
  )
]

code_chars-code_digits :
    (bs : List ℕ)
    → All (λ b. b < 256) bs
    → (code_chars (code_digits bs) ≡ code_digits bs) × (length (code_digits bs) ≡ 2 * length bs)
unfolding code_digits code_chars
code_chars-code_digits [] h = (refl, refl)
code_chars-code_digits (b ∷ bs) (h, hs) =
    let (c, d, e, f, g) = byte-IsPair b h in
    let (kept, long) = code_chars-code_digits bs hs in
    (rw e (rw (f, g, kept) refl), rw e (omega (arith, long)))

take_all : (n : ℕ) (s : Str) → length s ≤ n → take n s ≡ s
take_all zero [] h = refl
take_all zero (c ∷ s) h = absurd (omega arith)
take_all (suc n) [] h = refl
take_all (suc n) (c ∷ s) h = ap (λ t. c ∷ t) (take_all n s (omega arith))

code_chars-new_room_code :
    (bytes : List ℕ)
    → All (λ b. b < 256) bytes
    → (code_chars (new_room_code bytes) ≡ new_room_code bytes)
      × (length (new_room_code bytes) ≡ 4 + 2 * length bytes)
unfolding new_room_code code_chars
code_chars-new_room_code bytes h =
    let (kept, long) = code_chars-code_digits bytes h in
    (ap (λ t. text "rdv-" ++ t) kept, omega (arith, long))

-- decodeURIComponent keeps letters, digits and dashes.
abbrev pub KeepsCodes : (Str → Option Str) → Type 0
KeepsCodes decode = (s : Str) → code_chars s ≡ s → decode s ≡ some s

-- The path /j/<code> of a new room's code is answered with the landing page of that very code.
pub route_static-new_room_code :
    (decode : Str → Option Str) (bytes : List ℕ) (url : PageUrl)
    → KeepsCodes decode
    → All (λ b. b < 256) bytes
    → length bytes ≡ 5
    → url.pathname ≡ text "/j/" ++ new_room_code bytes
    → route_static decode url
      ≡ some (page (landing_page (new_room_code bytes) url.origin (take 200 (or_empty url.p))))
unfolding route_static raw_code
route_static-new_room_code decode bytes url keeps small five path =
    let code = new_room_code bytes in
    let (kept, long) = code_chars-new_room_code bytes small in
    let whole : take 40 code ≡ code = take_all 40 code (omega arith) in
    rw (path, keeps code kept, kept, whole) refl
