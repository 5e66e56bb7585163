-- ===== src/Listings/Favorites/Laws.antt =====
-- apps/core/src/modules/listings/listings.service.ts: what becomes a favourite and what stays one.
use heidi_microservices.Common.{
  ℕ, ◌≡◌, refl, ap, ◌∙◌, inl, inr, Bool, true, false, ◌&&◌, ◌||◌, Option, none, some, List, [], ◌∷◌,
  map, String, str_eq, str_eq_refl, select, includes, truthy, Bool-cases, arith, eq_iff,
  if◌then◌else◌,
}
use heidi_microservices.Common.Outcome.{Outcome, returned, thrown, unfinished, returned-inj}
use heidi_microservices.Common.Action.{◌>>=◌, continue, Fixes, bind_returned}
use heidi_microservices.Database.{Table, IsTable}
use heidi_microservices.Listings.{Listing, with_id}
use heidi_microservices.Listings.Favorites.{
  UserFavorite, find_favorite, get_favorite_listing_ids, FavoriteAnswer, Shelf, refused, required,
  require_listing, kept_or_made, upsert_favorite, delete_found, remove_favorite, add_to,
  toggle_found, toggle_favorite, get_listing_by_id,
}
use heidi_microservices.Listings.Favorites.Kept.{
  keeps, is_same, Toggled, find-some, same_keys, any-made, any-select-not,
}

module _ {S : Type 0} (table : Table S Listing) (laws : IsTable table) where
  upsert_favorite-Toggled :
      (now : ℕ) (fresh user listing : String) (s : Shelf S)
      → Toggled user listing true s.favorites
          (upsert_favorite table now fresh user listing s).1.favorites
  unfolding upsert_favorite kept_or_made
  upsert_favorite-Toggled now fresh user listing s u l =
      by_row (find_favorite user listing s.favorites) refl
    where
      by_row :
          (o : Option UserFavorite)
          → find_favorite user listing s.favorites ≡ o
          → keeps u l (kept_or_made table now fresh user listing o s).1.favorites
            ≡ (if is_same u l user listing then true else keeps u l s.favorites)
      by_row none e = any-made u l user listing s.favorites _ refl refl
      by_row (some f) e = elim (Bool-cases (is_same u l user listing)) [
        | inl k ↦
            rw k (same_keys u l user listing s.favorites k (find-some user listing s.favorites f e))
        | inr k ↦ rw k
      ]

  remove_favorite-Toggled :
      (user listing : String) (s : Shelf S) (a : FavoriteAnswer)
      → (remove_favorite table user listing s).0 ≡ returned a
      → Toggled user listing false s.favorites (remove_favorite table user listing s).1.favorites
  unfolding remove_favorite delete_found
  remove_favorite-Toggled user listing s a h u l = by_row (find_favorite user listing s.favorites) h
    where
      by_row :
          (o : Option UserFavorite)
          → (delete_found table user listing o s).0 ≡ returned a
          → keeps u l (delete_found table user listing o s).1.favorites
            ≡ (if is_same u l user listing then false else keeps u l s.favorites)
      by_row none h = cc
      by_row (some f) h = any-select-not u l user listing s.favorites

  refused-eq-returned :
      {A : Type 0} (r : Outcome A × Shelf S) {a : A}
      → (refused r).0 ≡ returned a
      → (refused r ≡ r) × (r.0 ≡ returned a)
  refused-eq-returned (returned x, t) h = (refl, h)
  refused-eq-returned (thrown e, t) h = cc
  refused-eq-returned (unfinished, t) h = cc

  require_listing_lem :
      (p : Listing → Bool) (s : Shelf S) (l : Listing)
      → (require_listing table p s).0 ≡ returned l
      → (table.find p s.db ≡ returned (some l)) × ((require_listing table p s).1 ≡ s)
  unfolding required
  require_listing_lem p s l h = by_reply (table.find p s.db) h
    where
      by_reply :
          (o : Outcome (Option Listing))
          → (continue (required table) (o, s)).0 ≡ returned l
          → (o ≡ returned (some l)) × ((continue (required table) (o, s)).1 ≡ s)
      by_reply (returned none) h = cc
      by_reply (returned (some r)) h = (ap (λ x. returned (some x)) (returned-inj h), refl)
      by_reply (thrown e) h = cc
      by_reply unfinished h = cc

  upsert_favorite-db :
      (now : ℕ) (fresh user listing : String)
      → Fixes Shelf.db (upsert_favorite table now fresh user listing)
  unfolding upsert_favorite kept_or_made
  upsert_favorite-db now fresh user listing s = by_row (find_favorite user listing s.favorites)
    where
      by_row :
          (o : Option UserFavorite) → (kept_or_made table now fresh user listing o s).1.db ≡ s.db
      by_row none = refl
      by_row (some f) = refl

  remove_favorite-db : (user listing : String) → Fixes Shelf.db (remove_favorite table user listing)
  unfolding remove_favorite delete_found
  remove_favorite-db user listing s = by_row (find_favorite user listing s.favorites)
    where
      by_row : (o : Option UserFavorite) → (delete_found table user listing o s).1.db ≡ s.db
      by_row none = refl
      by_row (some f) = refl

  -- The user keeps the listing or not, as asked; nothing else has changed.
  pub record IsToggled (user listing : String) (b : Bool) (s t : Shelf S) : Type 0 where
    pub favorites : Toggled user listing b s.favorites t.favorites
    pub db : t.db ≡ s.db

  toggle_found-IsToggled :
      (now : ℕ) (fresh user id : String) (b : Bool) (listing : Listing) (s : Shelf S)
      (a : FavoriteAnswer)
      → (toggle_found table now fresh user id b listing s).0 ≡ returned a
      → IsToggled user id b s (toggle_found table now fresh user id b listing s).1
  unfolding toggle_found add_to
  toggle_found-IsToggled now fresh user id true listing s a h =
      let (f, _, e, _) = bind_returned (upsert_favorite table now fresh user id) _ s h in
      rw e (record {
        favorites = upsert_favorite-Toggled now fresh user id s;
        db = upsert_favorite-db now fresh user id s;
      })
  toggle_found-IsToggled now fresh user id false listing s a h = record {
    favorites = remove_favorite-Toggled user id s a h;
    db = remove_favorite-db user id s;
  }

  between :
      {A : Type 0} (user id : String) (b : Bool) (t s : Shelf S) (r q : Outcome A × Shelf S)
      → t ≡ s
      → r ≡ q
      → IsToggled user id b t q.1
      → IsToggled user id b s r.1
  between user id b t s r q e k h = rw (← e, k) h

  -- A `toggleFavorite` that returned found the listing.
  pub toggle_favorite-IsToggled :
      (now : ℕ) (fresh user id : String) (b : Bool) (s : Shelf S) (a : FavoriteAnswer)
      → (toggle_favorite table now fresh user id b s).0 ≡ returned a
      → ((listing : Listing) × (table.find (with_id id) s.db ≡ returned (some listing)))
        × IsToggled user id b s (toggle_favorite table now fresh user id b s).1
  unfolding toggle_favorite
  toggle_favorite-IsToggled now fresh user id b s a h =
      let run = require_listing table (with_id id) >>= toggle_found table now fresh user id b in
      let (same, k) = refused-eq-returned (run s) h in
      let (listing, found, e, r) =
        bind_returned (require_listing table (with_id id)) (toggle_found table now fresh user id b)
          s k in
      let (there, kept) = require_listing_lem (with_id id) s listing found in
      (
        (listing, there),
        between user id b _ s _ _ kept (same ∙ e) (
            toggle_found-IsToggled now fresh user id b listing
              (require_listing table (with_id id) s).1 a r),
      )

  -- What `has` finds in the set of one listing.
  includes_favorites :
      (user id : String) (rows : List UserFavorite)
      → includes (get_favorite_listing_ids user (id ∷ []) rows) id ≡ keeps user id rows
  includes_favorites user id [] = refl
  includes_favorites user id (f ∷ rows) =
      let rest = includes_favorites user id rows in
      by_match (str_eq f.user_id user) (str_eq f.listing_id id) (str_eq id f.listing_id)
        (ground (arith, eq_iff f.listing_id id, eq_iff id f.listing_id)) refl rest
    where
      by_match :
          (u l k : Bool)
          → k ≡ l
          → str_eq f.listing_id id ≡ l
          → includes (get_favorite_listing_ids user (id ∷ []) rows) id ≡ keeps user id rows
          → includes
              (map UserFavorite.listing_id (
                if u && (k || false)
                then f ∷ select (λ g. str_eq g.user_id user && includes (id ∷ []) g.listing_id) rows
                else select (λ g. str_eq g.user_id user && includes (id ∷ []) g.listing_id) rows))
              id
            ≡ ((u && l) || keeps user id rows)
      by_match false l k e h rest = rest
      by_match true true true e h rest = rw h
      by_match true false false e h rest = rest
      by_match true true false e h rest = cc
      by_match true false true e h rest = cc

  -- What `getListingById` answers a user.
  with_favorite_lem :
      (id user : String) (b : Bool) (t : Shelf S) (l : Listing)
      → truthy (some user) ≡ true
      → table.find (with_id id) t.db ≡ returned (some l)
      → keeps user id t.favorites ≡ b
      → (get_listing_by_id table id (some user) t).0 ≡ returned (l, b)
  unfolding get_listing_by_id required
  with_favorite_lem id user b t l named found k =
      let same : l.id ≡ id =
        ground (arith, eq_iff l.id id, (laws.find_some (with_id id) t.db l found).1) in
      rw (found, named, same) (rw (includes_favorites user id t.favorites ∙ k))

  -- After `toggleFavorite`, `getListingById` finds the listing, marked for that user as it was asked.
  pub get_listing_by_id-toggle_favorite :
      (now : ℕ) (fresh user id : String) (b : Bool) (s : Shelf S) (a : FavoriteAnswer)
      → truthy (some user) ≡ true
      → (toggle_favorite table now fresh user id b s).0 ≡ returned a
      → (listing : Listing) × ((get_listing_by_id table id
            (some user)
            (toggle_favorite table now fresh user id b s).1).0
          ≡ returned (listing, b))
  get_listing_by_id-toggle_favorite now fresh user id b s a named h =
      let ((listing, there), toggled) = toggle_favorite-IsToggled now fresh user id b s a h in
      let there_still = ap (table.find (with_id id)) toggled.db ∙ there in
      (
        listing,
        with_favorite_lem id user b _ listing named there_still
            (toggled.favorites user id ∙ rw (str_eq_refl user, str_eq_refl id)),
      )
