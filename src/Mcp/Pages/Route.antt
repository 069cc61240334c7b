-- ===== src/Mcp/Pages/Route.antt =====
-- `newRoomCode` and `routeStatic` of apps/mcp/src/lib.ts. The parsed URL is a record.
use randevu.Base.{
  ℕ, ◌+◌, ◌/◌, ◌%◌, Bool, ◌||◌, ◌&&◌, Option, none, some, List, [], ◌∷◌, ◌++◌, Str, text, str_eq,
  starts_with, take, drop, pad_start, ltb, leb, if◌then◌else◌, ◌==◌,
}
use randevu.Mcp.Pages.Landing.{landing_page}

abbrev pub hex_digit : ℕ → ℕ
hex_digit d = if ltb d 10 then 48 + d else 87 + d

-- b.toString(16), for a byte
abbrev pub radix_hex : ℕ → Str
radix_hex b = if ltb b 16 then hex_digit b ∷ [] else hex_digit (b / 16) ∷ hex_digit (b % 16) ∷ []

unfoldable pub code_digits : List ℕ → Str
unfolding pad_start
code_digits [] = []
code_digits (b ∷ bs) = pad_start 2 (radix_hex b) ++ code_digits bs

-- The five random bytes are an argument.
unfoldable pub new_room_code : List ℕ → Str
unfolding code_digits
new_room_code bytes = text "rdv-" ++ code_digits bytes

-- [a-z0-9-], in any case
abbrev pub is_code_char : ℕ → Bool
is_code_char c =
    (leb 97 c && leb c 122) || (leb 65 c && leb c 90) || (leb 48 c && leb c 57) || c == 45

-- raw.replace(/[^a-z0-9-]/gi, "")
unfoldable pub code_chars : Str → Str
code_chars [] = []
code_chars (c ∷ s) = let rest = code_chars s in if is_code_char c then c ∷ rest else rest

pub record PageUrl : Type 0 where
  pub pathname : Str
  pub origin : Str
  -- searchParams.get("p")
  pub p : Option Str

pub data StaticResponse : Type 0 where
  health : StaticResponse
  page : Str → StaticResponse
  not_found : StaticResponse

abbrev pub or_empty : Option Str → Str
or_empty none = []
or_empty (some s) = s

-- decodeURIComponent is a parameter; where it throws there is no code.
unfoldable pub raw_code : (Str → Option Str) → Str → Str
unfolding starts_with
raw_code decode pathname =
    if starts_with pathname (text "/j/") then or_empty (decode (drop 3 pathname)) else []

-- `none` hands the request on to the MCP transport.
unfoldable pub route_static : (Str → Option Str) → PageUrl → Option StaticResponse
unfolding raw_code code_chars str_eq starts_with
route_static decode url =
    if str_eq url.pathname (text "/")
    then some health
    else if str_eq url.pathname (text "/j") || starts_with url.pathname (text "/j/")
    then some (
        page (
          landing_page (take 40 (code_chars (raw_code decode url.pathname))) url.origin
            (take 200 (or_empty url.p))))
    else if starts_with url.pathname (text "/mcp")
    then none
    else some not_found
