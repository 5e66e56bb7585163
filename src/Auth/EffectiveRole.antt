-- ===== src/Auth/EffectiveRole.antt =====
-- apps/auth/src/modules/auth/auth.service.ts: the role that decides a user's permissions at login
-- and on a refresh.
use heidi_microservices.Common.{
  ℕ, zero, suc, ◌≤◌, either, ◌≡◌, refl, ap, sym, ◌∙◌, ◌⊎◌, inl, inr, Bool, true, false, Option,
  none, some, List, [], ◌∷◌, arith, In, ltb, if◌then◌else◌,
}
use heidi_microservices.Rbac.Roles.{UserRole, super_admin, city_admin, citizen}

-- `roleHierarchy.indexOf(role)` of a role, and the entry at an index of `roleHierarchy`.
abbrev pub role_index : UserRole → ℕ
role_index super_admin = 0
role_index city_admin = 1
role_index citizen = 2

abbrev role_at : ℕ → UserRole
role_at zero = super_admin
role_at (suc zero) = city_admin
role_at (suc (suc n)) = citizen

-- `Math.min(...roles.map((r) => roleHierarchy.indexOf(r)))`, from a first role on.
least_index : UserRole → List UserRole → ℕ
least_index r [] = role_index r
least_index r (q ∷ rest) =
    let least = least_index q rest in if ltb (role_index r) least then role_index r else least

-- `userRoleIndex >= 0 && userRoleIndex < highest`; a text that is no role has the index -1.
abbrev is_higher : Option UserRole → ℕ → Bool
is_higher none highest = false
is_higher (some r) highest = ltb (role_index r) highest

abbrev or_citizen : Option UserRole → UserRole
or_citizen none = citizen
or_citizen (some r) = r

pub effective_role : Option UserRole → List UserRole → UserRole
unfolding least_index
effective_role own [] = if is_higher own 2 then or_citizen own else citizen
effective_role own (r ∷ rest) =
    if is_higher own (least_index r rest) then or_citizen own else role_at (least_index r rest)

abbrev Holds : Option UserRole → List UserRole → UserRole → Type 0
Holds own assigned r = (own ≡ some r) ⊎ In r assigned

role_at_index : (r : UserRole) → role_at (role_index r) ≡ r
role_at_index super_admin = refl
role_at_index city_admin = refl
role_at_index citizen = refl

index_at_two : (r : UserRole) → role_index r ≤ 2
index_at_two super_admin = omega arith
index_at_two city_admin = omega arith
index_at_two citizen = omega arith

-- The index `m` is that of one of the roles, and no role has a lower one.
abbrev IsLeast : List UserRole → ℕ → Type 0
IsLeast roles m =
    ((r : UserRole) × In r roles × (role_index r ≡ m))
    × ((q : UserRole) → In q roles → m ≤ role_index q)

least_index-IsLeast :
    (r : UserRole) (rest : List UserRole) → IsLeast (r ∷ rest) (least_index r rest)
unfolding least_index
least_index-IsLeast r [] =
    ((r, inl refl, refl), λ q m. elim m [ inl e ↦ rw e (omega arith) | inr h ↦ absurd h ])
least_index-IsLeast r (p ∷ rest) =
    let ((w, i, e), low) = least_index-IsLeast p rest in
    either (IsLeast (r ∷ p ∷ rest)) (ltb (role_index r) (least_index p rest))
      (λ h. (
        (r, inl refl, refl),
        λ q m. elim m [ inl g ↦ rw g (omega arith) | inr n ↦ let k = low q n in ground arith ],
      ))
      (λ h. ((w, inr i, e), λ q m. elim m [ inl g ↦ rw g (ground arith) | inr n ↦ low q n ]))

-- What the role of highest privilege is among those that are held.
abbrev pub IsHighest : Option UserRole → List UserRole → UserRole → Type 0
IsHighest own assigned e =
    (Holds own assigned e ⊎ ((own ≡ none) × (assigned ≡ []) × (e ≡ citizen)))
    × ((q : UserRole) → Holds own assigned q → role_index e ≤ role_index q)

own-IsHighest :
    (own : Option UserRole) (assigned : List UserRole) (m : ℕ)
    → ((q : UserRole) → In q assigned → m ≤ role_index q)
    → is_higher own m ≡ true
    → IsHighest own assigned (or_citizen own)
own-IsHighest none assigned m low h = cc
own-IsHighest (some r) assigned m low h = (
  inl (inl refl),
  λ q k. elim k [
    | inl e ↦ let g : r ≡ q = ap or_citizen e in rw g (omega arith)
    | inr i ↦ let k = low q i in ground arith
  ],
)

assigned-IsHighest :
    (own : Option UserRole) (r w : UserRole) (rest : List UserRole)
    → In w (r ∷ rest)
    → ((q : UserRole) → In q (r ∷ rest) → role_index w ≤ role_index q)
    → is_higher own (role_index w) ≡ false
    → IsHighest own (r ∷ rest) w
assigned-IsHighest none r w rest i low h =
    (inl (inr i), λ q k. elim k [ inl e ↦ cc | inr j ↦ low q j ])
assigned-IsHighest (some p) r w rest i low h = (
  inl (inr i),
  λ q k. elim k [
    | inl e ↦ let g : p ≡ q = ap or_citizen e in rw (← g) (ground arith)
    | inr j ↦ low q j
  ],
)

same-IsHighest :
    (own : Option UserRole) (assigned : List UserRole) (w v : UserRole)
    → w ≡ v
    → IsHighest own assigned w
    → IsHighest own assigned v
same-IsHighest own assigned w v e h = rw (← e) h

-- The effective role is one that the user holds, by the account or by an assignment, and of those
-- the one with the most privileges; a user who holds none counts as a citizen.
pub effective_role-IsHighest :
    (own : Option UserRole) (assigned : List UserRole)
    → IsHighest own assigned (effective_role own assigned)
unfolding effective_role
effective_role-IsHighest none [] =
    (inr (refl, refl, refl), λ q k. elim k [ inl e ↦ cc | inr i ↦ absurd i ])
effective_role-IsHighest (some super_admin) [] =
    own-IsHighest (some super_admin) [] 2 (λ q i. absurd i) refl
effective_role-IsHighest (some city_admin) [] =
    own-IsHighest (some city_admin) [] 2 (λ q i. absurd i) refl
effective_role-IsHighest (some citizen) [] = (
  inl (inl refl),
  λ q k. elim k [
    | inl e ↦ let g : citizen ≡ q = ap or_citizen e in rw (← g) (omega arith)
    | inr i ↦ absurd i
  ],
)
effective_role-IsHighest own (r ∷ rest) =
    let ((w, i, e), low) = least_index-IsLeast r rest in
    either (IsHighest own (r ∷ rest)) (is_higher own (least_index r rest))
      (λ h. own-IsHighest own (r ∷ rest) (least_index r rest) low h)
      (λ h.
        same-IsHighest own (r ∷ rest) w (role_at (least_index r rest))
          (sym (role_at_index w) ∙ ap role_at e)
          (assigned-IsHighest own r w rest i (rw (← e) at low) (rw (← e) at h)))
