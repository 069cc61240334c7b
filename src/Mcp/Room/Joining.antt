-- ===== src/Mcp/Room/Joining.antt =====
-- Who is in a hosted room, and with which role.
use randevu.Base.{
  Bool, true, false, Option, some, List, [], ◌∷◌, ◌++◌, Str, str_eq, str_eq_refl, ◌≡◌, refl, arith,
  if◌then◌else◌, Bool-cases, inl, inr,
}
use randevu.Core.Kinds.{guidance_for}
use randevu.Mcp.Room.{Cells, or_else, includes_name, set_role, with_member, join_open}

includes_name-snoc : (name : Str) (ms : List Str) → includes_name name (ms ++ name ∷ []) ≡ true
unfolding includes_name
includes_name-snoc name [] = rw (str_eq_refl name) refl
includes_name-snoc name (m ∷ ms) = ground (arith, includes_name-snoc name ms)

guidance_for-set_role :
    (name role : Str) (rs : List (Str × Str))
    → guidance_for name (set_role name role rs) ≡ some role
unfolding guidance_for set_role
guidance_for-set_role name role [] = rw (str_eq_refl name) refl
guidance_for-set_role name role ((n, r) ∷ rs) = elim (Bool-cases (str_eq n name)) [
  | inl t ↦ rw (t, t) refl
  | inr e ↦ rw (e, e) (guidance_for-set_role name role rs)
]

with_member-again :
    (name : Str) (c : Option (List Str)) (b : Bool)
    → includes_name name (or_else c []) ≡ b
    → with_member name (or_else (if b then c else some (with_member name (or_else c []))) [])
      ≡ with_member name (or_else c [])
unfolding with_member
with_member-again name c true h = refl
with_member-again name c false h = rw h (rw (includes_name-snoc name (or_else c [])) refl)

-- Joining again under the same name keeps the members and the role, whatever role is asked for the
-- second time.
pub join_open_again :
    (c : Cells) (name role other : Str)
    → ((join_open (join_open c name role).1 name other).0.members
        ≡ (join_open c name role).0.members)
      × ((join_open (join_open c name role).1 name other).0.role ≡ (join_open c name role).0.role)
unfolding join_open
join_open_again c name role other = (
  with_member-again name c.members (includes_name name (or_else c.members [])) refl,
  rw guidance_for-set_role refl,
)
