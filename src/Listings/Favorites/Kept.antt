-- ===== src/Listings/Favorites/Kept.antt =====
-- apps/core/src/modules/listings/listings.service.ts: which listings a list of favourites keeps for whom.
use heidi_microservices.Common.{
  ◌≡◌, refl, inl, inr, Bool, true, false, ◌&&◌, ◌||◌, not, none, some, List, [], ◌∷◌, ◌++◌, String,
  str_eq, any, any-append, select, Bool-cases, arith, eq_iff, if◌then◌else◌,
}
use heidi_microservices.Listings.Favorites.{UserFavorite, is_favorite_of, find_favorite}

-- Whether the user keeps the listing.
abbrev pub keeps : String → String → List UserFavorite → Bool
keeps user listing rows = any (is_favorite_of user listing) rows

abbrev pub is_same : String → String → String → String → Bool
is_same u l user listing = str_eq user u && str_eq listing l

-- The favourites after the user kept the listing, or gave it up.
abbrev pub Toggled : String → String → Bool → List UserFavorite → List UserFavorite → Type 0
Toggled user listing b before after =
    (u l : String) → keeps u l after ≡ (if is_same u l user listing then b else keeps u l before)

pub find-some :
    (u l : String) (rows : List UserFavorite) (f : UserFavorite)
    → find_favorite u l rows ≡ some f
    → keeps u l rows ≡ true
find-some u l [] f h = cc
find-some u l (g ∷ rows) f h = elim (Bool-cases (is_favorite_of u l g)) [
  | inl e ↦ rw e
  | inr e ↦ rw (e, find-some u l rows f (rw e at h))
]

pub find-none :
    (u l : String) (rows : List UserFavorite)
    → find_favorite u l rows ≡ none
    → keeps u l rows ≡ false
find-none u l [] h = refl
find-none u l (g ∷ rows) h = elim (Bool-cases (is_favorite_of u l g)) [
  | inl e ↦ let k : some g ≡ none = rw e at h in cc
  | inr e ↦ rw (e, find-none u l rows (rw e at h))
]

-- Two keys are the same, or no row has both.
same_or_apart :
    (u l user listing : String) (g : UserFavorite)
    → is_favorite_of user listing g ≡ true
    → is_favorite_of u l g ≡ is_same u l user listing
same_or_apart u l user listing g h =
    ground (arith, eq_iff g.user_id user, eq_iff g.listing_id listing)

apart :
    (u l user listing : String) (g : UserFavorite)
    → is_same u l user listing ≡ true
    → is_favorite_of user listing g ≡ false
    → (is_favorite_of u l g || false) ≡ false
apart u l user listing g k h = ground (arith, eq_iff user u, eq_iff listing l)

pub any-select-not :
    (u l user listing : String) (rows : List UserFavorite)
    → keeps u l (select (λ g. not (is_favorite_of user listing g)) rows)
      ≡ (if is_same u l user listing then false else keeps u l rows)
any-select-not u l user listing [] = elim (Bool-cases (is_same u l user listing)) [
  | inl k ↦ rw k
  | inr k ↦ rw k
]
any-select-not u l user listing (g ∷ rows) = elim (Bool-cases (is_favorite_of user listing g)) [
  | inl e ↦
      let k = same_or_apart u l user listing g e in
      rw (e, any-select-not u l user listing rows, k) (ground arith)
  | inr e ↦ elim (Bool-cases (is_same u l user listing)) [
    | inl k ↦ rw (e, any-select-not u l user listing rows, k) (apart u l user listing g k e)
    | inr k ↦ rw (e, any-select-not u l user listing rows, k)
  ]
]

pub same_keys :
    (u l user listing : String) (rows : List UserFavorite)
    → is_same u l user listing ≡ true
    → keeps user listing rows ≡ true
    → keeps u l rows ≡ true
same_keys u l user listing rows k h =
    let same_user : user ≡ u = ground (arith, eq_iff user u) in
    let same_listing : listing ≡ l = ground (arith, eq_iff listing l) in
    rw (← same_user, ← same_listing) h

-- A row that is not there yet, at the end.
pub any-made :
    (u l user listing : String) (rows : List UserFavorite) (row : UserFavorite)
    → row.user_id ≡ user
    → row.listing_id ≡ listing
    → keeps u l (rows ++ row ∷ []) ≡ (if is_same u l user listing then true else keeps u l rows)
any-made u l user listing rows row h k =
    rw (any-append (is_favorite_of u l) rows (row ∷ []), h, k)
      (elim (Bool-cases (is_same u l user listing)) [
        | inl e ↦ rw e (ground arith)
        | inr e ↦ rw e (ground arith)
      ])
