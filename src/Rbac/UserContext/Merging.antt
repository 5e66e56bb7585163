-- ===== src/Rbac/UserContext/Merging.antt =====
-- The permissions of several roles are merged without repetition.
use heidi_microservices.Common.{
  ℕ, none, ◌≡◌, refl, ◌∙◌, inl, inr, Bool, true, false, ◌||◌, List, [], ◌∷◌, ◌++◌, String, arith,
  includes, includes-append, any, any-append, Bool-cases, str_eq, eq_iff,
}
use heidi_microservices.Rbac.Permissions.{Permission, Assignment, CoreDb, is_super}
use heidi_microservices.Rbac.Permissions.Laws.{
  get_user_city_assignments_returned, get_role_permissions_returned, in_scope-none,
}
use heidi_microservices.Common.Outcome.{returned}
use heidi_microservices.Rbac.Roles.{UserRole, role_eq, role_eq_iff}
use heidi_microservices.Rbac.Cities.{CityDb}
use heidi_microservices.Rbac.UserContext.{
  Effective, permission_key, effective, keys_of, values_of, add_entry, add_entries, gather,
  has_member, role_set, effective_of, get_user_effective_permissions,
}

keys_of-append : (xs ys : List (String × Effective)) → keys_of (xs ++ ys) ≡ keys_of xs ++ keys_of ys
keys_of-append [] ys = refl
keys_of-append ((k, e) ∷ xs) ys = rw (keys_of-append xs ys)

-- No key occurs twice.
abbrev pub Distinct : List String → Type 0
Distinct [] = Unit
Distinct (k ∷ ks) = (includes ks k ≡ false) × Distinct ks

Distinct-snoc :
    (ks : List String) (k : String) → Distinct ks → includes ks k ≡ false → Distinct (ks ++ k ∷ [])
Distinct-snoc [] k h e = (refl, tt)
Distinct-snoc (j ∷ ks) k h e = (
  rw (includes-append ks (k ∷ []) j) (ground (arith, eq_iff j k, eq_iff k j)),
  Distinct-snoc ks k h.1 (ground arith),
)

add_entry-Distinct :
    (entries : List (String × Effective)) (p : Permission)
    → Distinct (keys_of entries)
    → Distinct (keys_of (add_entry entries p))
unfolding add_entry
add_entry-Distinct entries p h = elim (Bool-cases (includes (keys_of entries) (permission_key p))) [
  | inl e ↦ rw e h
  | inr e ↦ rw e (
      rw (keys_of-append entries ((permission_key p, effective p) ∷ []))
        (Distinct-snoc (keys_of entries) (permission_key p) h e))
]

includes-add_entry :
    (entries : List (String × Effective)) (p : Permission) (k : String)
    → includes (keys_of (add_entry entries p)) k
      ≡ (includes (keys_of entries) k || str_eq (permission_key p) k)
unfolding add_entry
includes-add_entry entries p k = elim (Bool-cases (includes (keys_of entries) (permission_key p))) [
  | inl e ↦ rw e (ground (arith, eq_iff (permission_key p) k))
  | inr e ↦ rw e (
      rw (keys_of-append entries ((permission_key p, effective p) ∷ []))
        (rw (includes-append (keys_of entries) (permission_key p ∷ []) k) (ground arith)))
]

abbrev pub has_key : List Permission → String → Bool
has_key found k = any (λ p. str_eq (permission_key p) k) found

add_entries-Distinct :
    (entries : List (String × Effective)) (found : List Permission)
    → Distinct (keys_of entries)
    → Distinct (keys_of (add_entries entries found))
unfolding add_entries
add_entries-Distinct entries [] h = h
add_entries-Distinct entries (p ∷ found) h =
    add_entries-Distinct (add_entry entries p) found (add_entry-Distinct entries p h)

includes-add_entries :
    (entries : List (String × Effective)) (found : List Permission) (k : String)
    → includes (keys_of (add_entries entries found)) k
      ≡ (includes (keys_of entries) k || has_key found k)
unfolding add_entries
includes-add_entries entries [] k = ground arith
includes-add_entries entries (p ∷ found) k =
    rw (includes-add_entries (add_entry entries p) found k, includes-add_entry entries p k)
      (ground arith)

module _ (db : CoreDb) (perms : UserRole → List Permission)
    (answers : (r : UserRole) → db.permissions_of_role r ≡ returned (perms r)) where
  gather_lem :
      (cities : CityDb) (entries : List (String × Effective)) (roles : List UserRole)
      → Distinct (keys_of entries)
      → (es : List (String × Effective)) × (gather cities db entries roles ≡ returned es)
        × Distinct (keys_of es)
        × ((k : String)
            → includes (keys_of es) k
              ≡ (includes (keys_of entries) k || any (λ r. has_key (perms r) k) roles))
  unfolding gather
  gather_lem cities entries [] h = (entries, refl, h, λ k. ground arith)
  gather_lem cities entries (r ∷ roles) h =
      let (es, q, d, x) =
        gather_lem cities (add_entries entries (perms r)) roles
          (add_entries-Distinct entries (perms r) h) in
      (
        es,
        rw (get_role_permissions_returned db r (answers r)) q,
        d,
        λ k. x k ∙ rw (includes-add_entries entries (perms r) k) (ground arith),
      )

has_member-any :
    (g : UserRole → Bool) (seen : List UserRole) (r : UserRole)
    → has_member seen r ≡ true
    → g r ≡ true
    → any g seen ≡ true
has_member-any g [] r h e = cc
has_member-any g (q ∷ seen) r h e = elim (Bool-cases (role_eq q r)) [
  | inl s ↦ rw ((role_eq_iff q r).0 s) (rw e)
  | inr s ↦ rw (has_member-any g seen r (rw s at h) e) (ground arith)
]

any-role_set :
    (g : UserRole → Bool) (seen : List UserRole) (held : List Assignment)
    → any g (role_set seen held) ≡ (any g seen || any (λ a. g a.role) held)
unfolding role_set
any-role_set g seen [] = ground arith
any-role_set g seen (a ∷ held) = elim (Bool-cases (has_member seen a.role)) [
  | inl e ↦ rw e (any-role_set g seen held ∙ ground (arith, has_member-any g seen a.role e))
  | inr e ↦ rw e (
      any-role_set g (seen ++ a.role ∷ []) held
      ∙ rw (any-append g seen (a.role ∷ [])) (ground arith))
]

-- The effective permissions, with no city given, of a user with assignments none of which is super
-- admin, when the core database answers: no key `resource:action` occurs twice, and a key occurs
-- exactly when a role of one of the assignments has a permission with it.
pub get_user_effective_permissions_lem :
    (cities : CityDb) (db : CoreDb) (perms : UserRole → List Permission)
    → ((r : UserRole) → db.permissions_of_role r ≡ returned (perms r))
    → (fuel : ℕ) (user : String) (a : Assignment) (held : List Assignment)
    → db.active_assignments user ≡ returned (a ∷ held)
    → any is_super (a ∷ held) ≡ false
    → (es : List (String × Effective)) × (get_user_effective_permissions cities db fuel user none
        ≡ returned (values_of es))
      × Distinct (keys_of es)
      × ((k : String) → includes (keys_of es) k ≡ any (λ b. has_key (perms b.role) k) (a ∷ held))
unfolding get_user_effective_permissions effective_of
get_user_effective_permissions_lem cities db perms answers fuel user a held asked plain =
    let roles = role_set [] (a ∷ held) in
    let (es, q, d, x) = gather_lem db perms answers cities [] roles tt in
    (
      es,
      rw (
        get_user_city_assignments_returned db user asked,
        plain,
        in_scope-none cities fuel (a ∷ held),
        q,
      ),
      d,
      λ k. x k ∙ any-role_set (λ r. has_key (perms r) k) [] (a ∷ held),
    )
