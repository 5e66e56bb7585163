-- ===== src/Listings/Tests.antt =====
-- Runs of the methods on listings.
use heidi_microservices.Common.{
  ℕ, Option, str_eq, if◌then◌else◌, ◌≡◌, refl, inl, inr, true, false, none, some, List, [], ◌∷◌,
  String,
}
use heidi_microservices.Common.Outcome.{Outcome, returned}
use heidi_microservices.Rbac.Roles.{citizen}
use heidi_microservices.Listings.{Listing}
use heidi_microservices.Listings.Sync.{
  sync_listing_categories, sync_listing_cities, sync_listing_time_intervals,
  sync_listing_time_interval_exceptions, sync_keyed, sync_named,
}
use heidi_microservices.Listings.Moderation.{submit_listing_for_review, approve_listing}
use heidi_microservices.Listings.Moderation.States.{stop, step, submit, approve, Sound, Run-Sound}
use heidi_microservices.Listings.Patches.{restricted_fields, first_restricted, edited}
use heidi_microservices.Listings.Update.{
  Store, write_update, restrict, update_found, chosen_slug, update_listing, sync_related, refreshed,
}
use heidi_microservices.Listings.Update.Restrained.{IsRestrained, edited-IsRestrained}
use heidi_microservices.Listings.Update.Laws.{Updated, update_listing-Updated}
use heidi_microservices.Listings.Samples.{
  shelf, create_fair, fair, Rows, table, table-IsTable, approval, retitle, ids, start,
}
use heidi_microservices.Listings.Favorites.{
  removed, toggle_favorite, toggle_found, required, remove_favorite, delete_found,
  get_listing_by_id,
}
use heidi_microservices.Listings.Favorites.Laws.{get_listing_by_id-toggle_favorite}
use heidi_microservices.Listings.Create.{created, add_related, insert_listing, create_listing}
use heidi_microservices.Listings.Create.Laws.{Created, create_listing-Created}
use heidi_microservices.Common.Decimals.{decimal}
use heidi_microservices.Slugs.{
  slugify, next_slug, ensure_unique_slug, lower, drop_while, drop_end, hyphenate,
}

fair-Sound : Sound table table-IsTable (fair ∷ [])
fair-Sound r (inl e) h = let k : false ≡ true = rw e at h in cc
fair-Sound r (inr m) h = absurd m

abbrev submitted_rows : Rows
submitted_rows = (submit_listing_for_review table "l1" "ann" (fair ∷ [])).1

abbrev approved_rows : Rows
approved_rows = (approve_listing table "l1" "mod" approval 5 submitted_rows).1

Run-Sound_example : Sound table table-IsTable approved_rows
Run-Sound_example =
    Run-Sound table table-IsTable
      (step (submit "l1" "ann") (step (approve "l1" "mod" approval 5) stop)) fair-Sound

edited-IsRestrained_example : IsRestrained fair (edited false "ann" 7 none retitle fair)
unfolding first_restricted
edited-IsRestrained_example = edited-IsRestrained "ann" 7 none retitle fair allowed
  where
    allowed : first_restricted (restricted_fields retitle) ≡ none
    allowed = refl

abbrev run : Outcome Listing × Store Rows
run = update_listing table 2 ids "l1" "ann" (citizen ∷ []) 7 retitle start

run_returned : run.0 ≡ returned (edited false "ann" 7 none retitle fair)
unfolding update_listing chosen_slug update_found restrict first_restricted write_update
    sync_related sync_listing_categories sync_listing_cities sync_listing_time_intervals
    sync_listing_time_interval_exceptions sync_keyed sync_named refreshed edited
run_returned = refl

update_listing-Updated_example :
    Updated table table-IsTable 2 ids "l1" "ann" false 7 retitle start run.1
update_listing-Updated_example =
    update_listing-Updated table table-IsTable 2 ids "l1" "ann" (citizen ∷ []) 7 retitle start _
      run_returned

-- The user gives the fair up.
toggled : (toggle_favorite table 3 "f2" "bob" "l1" false shelf).0 ≡ returned removed
unfolding toggle_favorite toggle_found required remove_favorite delete_found
toggled = refl

get_listing_by_id-toggle_favorite_example :
    (listing : Listing) × ((get_listing_by_id table "l1"
        (some "bob")
        (toggle_favorite table 3 "f2" "bob" "l1" false shelf).1).0
      ≡ returned (listing, false))
get_listing_by_id-toggle_favorite_example =
    get_listing_by_id-toggle_favorite table table-IsTable 3 "f2" "bob" "l1" false shelf removed refl
      toggled

abbrev second_fair : Listing
second_fair = record fair { id = "l2"; slug = "summer-fair-1" }

-- When each row was made.
abbrev created_at : String → Listing → Option ℕ
created_at by r = if str_eq r.id "l1" then some 1 else some 2

-- The order of two rows, the newest first.
abbrev newest_first : ℕ → String → String → List Listing → List Listing
newest_first query by direction (r ∷ q ∷ []) = q ∷ r ∷ []
newest_first query by direction rows = rows

abbrev shown : List Listing
shown = fair ∷ second_fair ∷ []

abbrev creation : Outcome Listing × Store Rows
creation = create_listing table 2 ids "l2" "ann" (citizen ∷ []) 7 create_fair start

creation_returned : creation.0 ≡ returned (created false "l2" "ann" "summer-fair-1" create_fair)
unfolding create_listing insert_listing add_related created ensure_unique_slug next_slug slugify
    lower drop_while drop_end hyphenate decimal
creation_returned = refl

create_listing-Created_example : Created table table-IsTable "ann" false start creation.1
create_listing-Created_example =
    create_listing-Created table table-IsTable 2 ids "l2" "ann" (citizen ∷ []) 7 create_fair start _
      creation_returned
