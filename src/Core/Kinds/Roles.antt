-- ===== src/Core/Kinds/Roles.antt =====
-- How roles are handed out.
use randevu.Base.{
  ℕ, zero, suc, ◌<◌, ◌-◌, ◌+◌, ◌++◌, min, length-append, str_eq_refl, is_some, Bool-cases, inl, inr,
  true, some, List, [], ◌∷◌, length, Str, str_eq, ◌≡◌, refl, ap, ◌∙◌, arith, All, subst,
}
use randevu.Core.Kinds.{
  KindDef, kinds, ℤ, pos, max_zero, find_kind, names, roles_of, roles_for_kind, role_at,
  assign_role, role_by_order, guidance_for,
}

role_at-append : (rs ss : List Str) (r : Str) → role_at (rs ++ r ∷ ss) (length rs) ≡ r
unfolding role_at
role_at-append [] ss r = refl
role_at-append (q ∷ rs) ss r = role_at-append rs ss r

-- What `assignRole` does where there are roles.
assign_role-cons :
    (rs : List Str) (order : ℤ)
    → 0 < length rs
    → assign_role rs order ≡ role_at rs (min (max_zero order) (length rs - 1))
unfolding assign_role
assign_role-cons [] order h = absurd (omega arith)
assign_role-cons (r ∷ rs) order h = refl

-- The member who joins behind as many others as a role has roles before it gets that role.
pub assign_role_in_turn :
    (rs ss : List Str) (r : Str) → assign_role (rs ++ r ∷ ss) (pos (length rs)) ≡ r
assign_role_in_turn rs ss r =
    let n = length-append rs (r ∷ ss) in
    let here : min (length rs) (length (rs ++ r ∷ ss) - 1) ≡ length rs = omega (arith, n) in
    assign_role-cons (rs ++ r ∷ ss) (pos (length rs)) (omega (arith, n))
    ∙ ap (role_at (rs ++ r ∷ ss)) here
    ∙ role_at-append rs ss r

-- An order past the end gives the last role, not the fallback.
pub assign_role_past_end :
    (rs : List Str) (r : Str) (n : ℕ) → assign_role (rs ++ r ∷ []) (pos (length rs + n)) ≡ r
assign_role_past_end rs r n =
    let m = length-append rs (r ∷ []) in
    let here : min (length rs + n) (length (rs ++ r ∷ []) - 1) ≡ length rs = omega (arith, m) in
    assign_role-cons (rs ++ r ∷ []) (pos (length rs + n)) (omega (arith, m))
    ∙ ap (role_at (rs ++ r ∷ [])) here
    ∙ role_at-append rs [] r

guidance_for-role_at :
    (rs : List (Str × Str)) (i : ℕ)
    → i < length (names rs)
    → is_some (guidance_for (role_at (names rs) i) rs) ≡ true
unfolding guidance_for role_at
guidance_for-role_at [] i h = absurd (omega arith)
guidance_for-role_at ((r, g) ∷ rs) zero h = rw (str_eq_refl r) refl
guidance_for-role_at ((r, g) ∷ rs) (suc i) h = elim (Bool-cases (str_eq r (role_at (names rs) i))) [
  | inl t ↦ rw t refl
  | inr n ↦ rw n (guidance_for-role_at rs i (omega arith))
]

-- The kinds found in a table satisfy what all of its entries do.
find_kind-All :
    (P : KindDef → Type 0) (kind : Str) (ds : List (Str × KindDef)) (d : KindDef)
    → All (λ e. P e.1) ds
    → find_kind kind ds ≡ some d
    → P d
unfolding find_kind
find_kind-All P kind [] d a h = cc
find_kind-All P kind ((k, e) ∷ ds) d a h = elim (Bool-cases (str_eq k kind)) [
  | inl t ↦ let here : e ≡ d = cc h in subst P here a.0
  | inr n ↦ find_kind-All P kind ds d a.1 (rw n refl ∙ h)
]

kinds-roles : All (λ e. 0 < length (names e.1.roles)) kinds
kinds-roles =
    (omega arith, (omega arith, (omega arith, (omega arith, (omega arith, (omega arith, tt))))))

-- Every role that a predefined kind hands out, whatever the order, has guidance in its table.
pub role_by_order-guidance_for :
    (kind : Str) (order : ℤ) (d : KindDef)
    → find_kind kind kinds ≡ some d
    → is_some (guidance_for (role_by_order kind order) d.roles) ≡ true
unfolding role_by_order roles_for_kind
role_by_order-guidance_for kind order d h =
    let some_role : 0 < length (names d.roles) =
      find_kind-All (λ e. 0 < length (names e.roles)) kind kinds d kinds-roles h in
    let at : assign_role (roles_of (find_kind kind kinds)) order
        ≡ role_at (names d.roles) (min (max_zero order) (length (names d.roles) - 1)) =
      ap (λ o. assign_role (roles_of o) order) h
      ∙ assign_role-cons (names d.roles) order some_role in
    ap (λ r. is_some (guidance_for r d.roles)) at ∙ guidance_for-role_at d.roles _ (omega arith)
