-- ===== src/Listings/Update/Laws.antt =====
-- apps/core/src/modules/listings/listings.service.ts: what `updateListing` requires and what it changes.
use heidi_microservices.Slugs.{slugify, ensure_unique_slug}
use heidi_microservices.Common.{
  str_eq, eq_iff, either, truthy, ℕ, ◌≡◌, refl, sym, ap, ◌∙◌, ◌⊎◌, inl, inr, Bool, true, false, not,
  ◌&&◌, Option, none, some, List, String, if◌then◌else◌,
}
use heidi_microservices.Common.Outcome.{
  Outcome, returned, returned-inj, thrown, unfinished, forbidden,
}
use heidi_microservices.Common.Action.{
  settled-eq-returned, Action, ◌>>=◌, ◌>>◌, Fixes, >>=-Fixes, continue, pure, query, throw,
  bind_returned,
}
use heidi_microservices.Listings.Update.Synced.{Synced, sync_related-Synced}
use heidi_microservices.Slugs.Unique.{IsFreeFor, ensure_unique_slug-IsFreeFor}
use heidi_microservices.Rbac.Roles.{UserRole}
use heidi_microservices.Database.{Table, IsTable, apply_where, Effect-returned}
use heidi_microservices.Listings.{Listing, is_admin, with_id, transaction}
use heidi_microservices.Listings.Moderation.{is_author}
use heidi_microservices.Listings.Patches.{UpdateDto, restricted_fields, first_restricted, edited}
use heidi_microservices.Listings.Update.{
  Store, NewIds, write_update, restrict, update_found, chosen_slug, update_listing, find_listing,
  on_listings, sync_related, refreshed, written, sync_keyed_rows, sync_intervals, sync_exceptions,
}

module _ {S : Type 0} (table : Table S Listing) (laws : IsTable table) where
  -- Who may edit the listing, with what.
  abbrev pub MayEdit : String → Bool → UpdateDto → Listing → Type 0
  MayEdit user admin dto existing =
      (admin ≡ true)
      ⊎ ((is_author user existing ≡ true) × (first_restricted (restricted_fields dto) ≡ none))

  -- The slug that an update sets: none, or the one that the loop finds for the text of the request, which
  -- no other listing has.
  abbrev pub IsChosen : ℕ → String → Option String → Option String → S → Type 0
  IsChosen fuel id none slug d = slug ≡ none
  IsChosen fuel id (some asked) slug d =
      ((asked ≡ "") × (slug ≡ none))
      ⊎ ((free : String) × (slug ≡ some free)
          × (ensure_unique_slug table Listing.slug Listing.id fuel (slugify asked) (some id) d
              ≡ returned free)
          × IsFreeFor table laws Listing.slug Listing.id (some id) free d)

  -- What an update that returned has done to the tables.
  pub record Updated (fuel : ℕ) (ids : NewIds) (id user : String) (admin : Bool) (now : ℕ)
      (dto : UpdateDto) (s t : Store S) : Type 0 where
    pub existing : Listing
    pub slug : Option String
    pub found : table.find (with_id id) s.db ≡ returned (some existing)
    pub allowed : MayEdit user admin dto existing
    pub chosen : IsChosen fuel id dto.slug slug s.db
    pub rows :
        table.rows t.db
        ≡ apply_where (with_id id) (edited admin user now slug dto) (table.rows s.db)
    pub synced : Synced ids id dto s.related t.related

  written-db :
      {A : Type 0} (f : A → Store S) (o : Outcome A) (s : Store S)
      → ((a : A) → (f a).db ≡ s.db)
      → (written f o s).1.db ≡ s.db
  written-db f (returned rows) s h = h rows
  written-db f (thrown e) s h = refl
  written-db f unfinished s h = refl

  sync_related-db :
      (ids : NewIds) (id : String) (dto : UpdateDto)
      → Fixes Store.db (sync_related {S = S} ids id dto)
  unfolding sync_related
  sync_related-db ids id dto =
      >>=-Fixes Store.db (sync_keyed_rows ids id dto)
        (λ _. sync_intervals ids id dto >> sync_exceptions ids id dto) (λ s. refl)
        (λ _.
          >>=-Fixes Store.db (sync_intervals ids id dto) (λ _. sync_exceptions ids id dto)
            (λ s. written-db _ _ s (λ rows. refl)) (λ _ s. written-db _ _ s (λ rows. refl)))

  find_refreshed-Fixes :
      {C : Type 0} (view : Store S → C) (id : String)
      → Fixes view (find_listing table id >>= refreshed table)
  unfolding refreshed
  find_refreshed-Fixes view id =
      >>=-Fixes view (find_listing table id) (refreshed table) (λ s. refl) found
    where
      found : (o : Option Listing) → Fixes view (refreshed table o)
      found none s = refl
      found (some listing) s = refl

  write_update-rows :
      (ids : NewIds) (id user : String) (admin : Bool) (now : ℕ) (slug : Option String)
      (dto : UpdateDto) (s : Store S) (a : Listing)
      → (write_update table ids id user admin now slug dto s).0 ≡ returned a
      → table.rows (write_update table ids id user admin now slug dto s).1.db
        ≡ apply_where (with_id id) (edited admin user now slug dto) (table.rows s.db)
  unfolding write_update
  write_update-rows ids id user admin now slug dto s a h =
      let change = on_listings (table.update (with_id id) (edited admin user now slug dto)) in
      let (b, k, e, _) = bind_returned change _ s h in
      let rest =
        >>=-Fixes Store.db (sync_related ids id dto)
          (λ _. find_listing table id >>= refreshed table) (sync_related-db ids id dto)
          (λ _. find_refreshed-Fixes Store.db id) in
      ap (λ r. table.rows r.1.db) e
      ∙ (ap table.rows (rest (change s).1)
          ∙ Effect-returned table.rows _ s.db _ k
              (laws.update_effect (with_id id) (edited admin user now slug dto) s.db))

  write_update-Synced :
      (ids : NewIds) (id user : String) (admin : Bool) (now : ℕ) (slug : Option String)
      (dto : UpdateDto) (s : Store S) (a : Listing)
      → (write_update table ids id user admin now slug dto s).0 ≡ returned a
      → Synced ids id dto s.related (write_update table ids id user admin now slug dto s).1.related
  unfolding write_update
  write_update-Synced ids id user admin now slug dto s a h =
      let change = on_listings (table.update (with_id id) (edited admin user now slug dto)) in
      let last = find_listing table id >>= refreshed table in
      let (_, _, e, k) = bind_returned change (λ _. sync_related ids id dto >>= λ _. last) s h in
      let (_, l, f, _) = bind_returned (sync_related ids id dto) (λ _. last) (change s).1 k in
      rw (e, f, find_refreshed-Fixes Store.related id (sync_related ids id dto (change s).1).1)
        (sync_related-Synced ids id dto (change s).1 l)

  chosen_slug_state :
      (fuel : ℕ) (id : String) (slug : Option String) (s : Store S)
      → (chosen_slug table fuel id slug s).1 ≡ s
  unfolding chosen_slug
  chosen_slug_state fuel id none s = refl
  chosen_slug_state fuel id (some slug) s =
      either (λ (m : Action (Store S) (Option String)). (m s).1 ≡ s) (truthy (some slug))
        (λ _.
          kept
            (ensure_unique_slug table Listing.slug Listing.id fuel (slugify slug) (some id) s.db))
        (λ _. refl)
    where
      kept :
          (o : Outcome String)
          → (continue (λ free. pure {A = Option String} (some free)) (o, s)).1 ≡ s
      kept (returned free) = refl
      kept (thrown e) = refl
      kept unfinished = refl

  chosen_slug-IsChosen :
      (fuel : ℕ) (id : String) (asked : Option String) (s : Store S) (slug : Option String)
      → (chosen_slug table fuel id asked s).0 ≡ returned slug
      → IsChosen fuel id asked slug s.db
  unfolding chosen_slug
  chosen_slug-IsChosen fuel id none s slug h = sym (returned-inj h)
  chosen_slug-IsChosen fuel id (some asked) s slug h = by_text (str_eq asked "") refl h
    where
      loop : Action (Store S) String
      loop = query (λ s.
          ensure_unique_slug table Listing.slug Listing.id fuel (slugify asked) (some id) s.db)

      kept : String → Action (Store S) (Option String)
      kept free = pure (some free)

      by_text :
          (b : Bool)
          → str_eq asked "" ≡ b
          → ((if not b then loop >>= kept else pure none) s).0 ≡ returned slug
          → IsChosen fuel id (some asked) slug s.db
      by_text true e h = inl ((eq_iff asked "").0 e, sym (returned-inj h))
      by_text false e h =
          let (free, k, _, l) = bind_returned loop kept s h in
          inr (
            free,
            sym (returned-inj l),
            k,
            ensure_unique_slug-IsFreeFor table laws Listing.slug Listing.id fuel (slugify asked)
                (some id) s.db free k,
          )

  allowed_restrict :
      (admin : Bool) (user : String) (dto : UpdateDto) (existing : Listing)
      (m : Action (Store S) Listing) (s : Store S) (a : Listing)
      → ((if not admin && not (is_author user existing)
            then throw (forbidden "You can only update listings you created")
            else restrict table admin (first_restricted (restricted_fields dto)) m)
          s).0
        ≡ returned a
      → MayEdit user admin dto existing
        × ((if not admin && not (is_author user existing)
                then throw (forbidden "You can only update listings you created")
                else restrict table admin (first_restricted (restricted_fields dto)) m)
              s
            ≡ m s)
  unfolding restrict
  allowed_restrict true user dto existing m s a h = (inl refl, refl)
  allowed_restrict false user dto existing m s a h = by_author (is_author user existing) refl h
    where
      by_fields :
          is_author user existing ≡ true
          → (o : Option String) → first_restricted (restricted_fields dto) ≡ o
          → (restrict table false o m s).0 ≡ returned a
          → MayEdit user false dto existing × (restrict table false o m s ≡ m s)
      by_fields b none e h = (inr (b, e), refl)
      by_fields b (some message) e h = cc

      by_author :
          (b : Bool)
          → is_author user existing ≡ b
          → ((if not b
                then throw (forbidden "You can only update listings you created")
                else restrict table false (first_restricted (restricted_fields dto)) m)
              s).0
            ≡ returned a
          → MayEdit user false dto existing
            × ((if not b
                    then throw (forbidden "You can only update listings you created")
                    else restrict table false (first_restricted (restricted_fields dto)) m)
                  s
                ≡ m s)
      by_author false e h = cc
      by_author true e h = by_fields e (first_restricted (restricted_fields dto)) refl h

  found-Updated :
      (fuel : ℕ) (ids : NewIds) (id user : String) (admin : Bool) (now : ℕ) (slug : Option String)
      (dto : UpdateDto) (s : Store S) (a : Listing) (o : Option Listing)
      {r : Outcome Listing × Store S}
      → table.find (with_id id) s.db ≡ returned o
      → IsChosen fuel id dto.slug slug s.db
      → r ≡ update_found table ids id user admin now slug dto o s
      → (update_found table ids id user admin now slug dto o s).0 ≡ returned a
      → Updated fuel ids id user admin now dto s r.1
  unfolding update_found
  found-Updated fuel ids id user admin now slug dto s a none f c e h = cc
  found-Updated fuel ids id user admin now slug dto s a (some existing) f c e h =
      let write = write_update table ids id user admin now slug dto in
      let (allowed, w) = allowed_restrict admin user dto existing write s a h in
      record {
        existing = existing;
        slug = slug;
        found = f;
        allowed = allowed;
        chosen = c;
        synced =
            rw (e ∙ w)
              (write_update-Synced ids id user admin now slug dto s a (ap (λ x. x.0) (sym w) ∙ h));
        rows =
            ap (λ x. table.rows x.1.db) (e ∙ w)
            ∙ write_update-rows ids id user admin now slug dto s a (ap (λ x. x.0) (sym w) ∙ h);
      }

  in_transaction :
      (fuel : ℕ) (ids : NewIds) (id user : String) (admin : Bool) (now : ℕ) (slug : Option String)
      (dto : UpdateDto) (s : Store S) (a : Listing) {r : Outcome Listing × Store S}
      → r
        ≡ transaction
            (find_listing table id >>= update_found table ids id user admin now slug dto)
            s
      → IsChosen fuel id dto.slug slug s.db
      → (transaction
          (find_listing table id >>= update_found table ids id user admin now slug dto)
          s).0
        ≡ returned a
      → Updated fuel ids id user admin now dto s r.1
  in_transaction fuel ids id user admin now slug dto s a e c h =
      let run = find_listing table id >>= update_found table ids id user admin now slug dto in
      let (same, h1) = settled-eq-returned s (run s) h in
      let (o, f, e1, h2) =
        bind_returned (find_listing table id) (update_found table ids id user admin now slug dto) s
          h1 in
      found-Updated fuel ids id user admin now slug dto s a o f c (e ∙ (same ∙ e1)) h2

  same_start :
      (fuel : ℕ) (ids : NewIds) (id user : String) (admin : Bool) (now : ℕ) (dto : UpdateDto)
      (t s w : Store S)
      → t ≡ s
      → Updated fuel ids id user admin now dto t w
      → Updated fuel ids id user admin now dto s w
  same_start fuel ids id user admin now dto t s w e h = rw (← e) h

  -- `updateListing` returns only if the listing exists and the user is an admin, or is its author and
  -- sets no field that is for admins. It then sets the fields of that listing that the request has, and no
  -- row of another listing changes in the table of listings. The slug stays if the request has none or an
  -- empty one; otherwise it is what the loop finds for the text of the request, and no other listing had
  -- it. If the request has categories or cities, the listing then has exactly those, and otherwise those that
  -- it had; the categories and cities of other listings are as they were. The intervals and exceptions are
  -- those that the syncs give for the request.
  pub update_listing-Updated :
      (fuel : ℕ) (ids : NewIds) (id user : String) (roles : List UserRole) (now : ℕ)
      (dto : UpdateDto) (s : Store S) (a : Listing)
      → (update_listing table fuel ids id user roles now dto s).0 ≡ returned a
      → Updated fuel ids id user
          (is_admin roles)
          now
          dto
          s
          (update_listing table fuel ids id user roles now dto s).1
  unfolding update_listing
  update_listing-Updated fuel ids id user roles now dto s a h =
      let (slug, k, e, h1) = bind_returned (chosen_slug table fuel id dto.slug) _ s h in
      let same = chosen_slug_state fuel id dto.slug s in
      same_start fuel ids id user (is_admin roles) now dto _ s _ same (
        in_transaction fuel ids id user (is_admin roles) now slug dto _ a e
          (rw same (chosen_slug-IsChosen fuel id dto.slug s slug k)) h1)
