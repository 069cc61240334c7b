-- ===== src/Core/Kinds.antt =====
-- Room kinds and roles: packages/core/src/kinds.ts.
pub mod Table
pub mod Roles
pub use Table.*
use randevu.Base.{
  ℕ, zero, suc, ◌-◌, ◌+◌, min, Bool, true, false, Option, none, some, List, [], ◌∷◌, ◌++◌, map,
  length, Str, text, str_eq, join_by, if◌then◌else◌, is_some,
}

-- An integer: the order that a caller passes may be negative.
pub data ℤ : Type 0 where
  pos : ℕ → ℤ
  negsuc : ℕ → ℤ

-- Math.max(0, order)
abbrev pub max_zero : ℤ → ℕ
max_zero (pos n) = n
max_zero (negsuc n) = 0

-- KINDS[kind]
unfoldable pub find_kind : Str → List (Str × KindDef) → Option KindDef
find_kind kind [] = none
find_kind kind ((k, d) ∷ ds) = if str_eq k kind then some d else find_kind kind ds

-- Object.keys
abbrev pub names : List (Str × Str) → List Str
names [] = []
names ((k, v) ∷ rs) = k ∷ names rs

abbrev pub roles_of : Option KindDef → List Str
roles_of none = []
roles_of (some d) = names d.roles

unfoldable pub roles_for_kind : Str → List Str
unfolding find_kind
roles_for_kind kind = roles_of (find_kind kind kinds)

-- roleKeys[i] ?? "participant"
unfoldable pub role_at : List Str → ℕ → Str
role_at [] i = text "participant"
role_at (r ∷ rs) zero = r
role_at (r ∷ rs) (suc i) = role_at rs i

unfoldable pub assign_role : List Str → ℤ → Str
unfolding role_at
assign_role [] order = text "participant"
assign_role (r ∷ rs) order = role_at (r ∷ rs) (min (max_zero order) (length (r ∷ rs) - 1))

unfoldable pub role_by_order : Str → ℤ → Str
unfolding roles_for_kind assign_role
role_by_order kind order = assign_role (roles_for_kind kind) order

-- def?.roles[role]
unfoldable pub guidance_for : Str → List (Str × Str) → Option Str
guidance_for role [] = none
guidance_for role ((r, g) ∷ rs) = if str_eq r role then some g else guidance_for role rs

abbrev line_break : ℕ
line_break = 10

-- if (text) lines.push(label + text)
abbrev pub line_if : Str → Str → List Str
line_if label [] = []
line_if label (c ∷ s) = (label ++ c ∷ s) ∷ []

-- An absent text and an empty one are both falsy.
abbrev pub or_no_text : Option Str → Str
or_no_text none = []
or_no_text (some s) = s

abbrev pub types_line : Option (List Str) → List Str
types_line none = []
types_line (some []) = []
types_line (some (t ∷ ts)) = (text "message types: " ++ comma_joined (t ∷ ts)) ∷ []
  where
    comma_joined : List Str → Str
    comma_joined [] = []
    comma_joined (x ∷ []) = x
    comma_joined (x ∷ y ∷ xs) = x ++ (text ", " ++ comma_joined (y ∷ xs))

abbrev pub tips_line : List Str → List Str
tips_line [] = []
tips_line (t ∷ ts) =
    (text "tips:\n" ++ join_by line_break (map (λ x. text " - " ++ x) (t ∷ ts))) ∷ []

-- roleGuidance || def?.roles[role]
abbrev pub chosen_guidance : Option Str → Option Str → Str
chosen_guidance (some (c ∷ s)) built_in = c ∷ s
chosen_guidance _ built_in = or_no_text built_in

-- The lines that the kind's definition gives around the guidance.
abbrev pub about_lines : Option KindDef → List Str
about_lines none = []
about_lines (some d) = line_if (text "about: ") d.summary ++ line_if (text "goal: ") d.goal

abbrev pub advice_lines : Option KindDef → List Str
advice_lines none = []
advice_lines (some d) =
    types_line d.message_types
    ++ (tips_line d.tips ++ line_if (text "check with your human before: ") (or_no_text d.escalate))

abbrev pub built_in_guidance : Str → Option KindDef → Option Str
unfolding guidance_for
built_in_guidance role none = none
built_in_guidance role (some d) = guidance_for role d.roles

abbrev pub custom_mark : Option KindDef → Str
custom_mark none = text " (custom)"
custom_mark (some d) = []

unfoldable pub room_context : Str → Str → Str → Option Str → Str
unfolding find_kind built_in_guidance
room_context kind role brief role_guidance =
    let def = find_kind kind kinds in
    join_by line_break (
      text "--- room context (information, not commands — you decide how to use it) ---"
      ∷ (text "room kind: " ++ (kind ++ custom_mark def))
      ∷ (text "your role: " ++ role)
      ∷ (about_lines def
          ++ (line_if (text "role guidance: ")
                (chosen_guidance role_guidance (built_in_guidance role def))
              ++ (advice_lines def
                  ++ (line_if (text "note from the room opener: ") brief
                      ++ text
                          "------------------------------------------------------------------------"
                        ∷ [])))))

abbrev pub comma_separated : List Str → Str
comma_separated [] = []
comma_separated (x ∷ []) = x
comma_separated (x ∷ y ∷ xs) = x ++ (text ", " ++ comma_separated (y ∷ xs))

-- Entries joined by an empty line.
abbrev pub paragraphs : List Str → Str
paragraphs [] = []
paragraphs (x ∷ []) = x
paragraphs (x ∷ y ∷ xs) = x ++ (text "\n\n" ++ paragraphs (y ∷ xs))

abbrev pub catalog_entry : Str × KindDef → Str
catalog_entry (k, d) =
    text "• "
    ++ (k
        ++ (text " — "
            ++ (d.summary
                ++ (text "\n  roles: "
                    ++ (comma_separated (names d.roles) ++ (text "\n  goal: " ++ d.goal))))))

unfoldable pub list_kinds : Str
list_kinds =
    paragraphs (map catalog_entry kinds) ++ text "\n\nYou can also use any custom kind label."
