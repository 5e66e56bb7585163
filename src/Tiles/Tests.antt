-- ===== src/Tiles/Tests.antt =====
-- Tiles of two users in cities that have no parts.
use heidi_microservices.Common.{
  ℕ, ◌≡◌, refl, inl, inr, true, false, none, some, List, [], ◌∷◌, String, arith, str_eq,
  if◌then◌else◌,
}
use heidi_microservices.Common.Outcome.{returned}
use heidi_microservices.Rbac.Roles.{city_admin}
use heidi_microservices.Rbac.Cities.{CityDb}
use heidi_microservices.Rbac.Cities.Descendants.{IsForest}
use heidi_microservices.Rbac.Permissions.{Assignment, CoreDb, is_city_admin}
use heidi_microservices.Rbac.Permissions.Scope.{ReachesBy}
use heidi_microservices.Tiles.{TileCity, TileCityReferenceDto, create_access}
use heidi_microservices.Tiles.Access.{create_access_iff}
use heidi_microservices.Tiles.Store.{Tile, TileStore}
use heidi_microservices.Tiles.Editing.{CreateTileDto}
use heidi_microservices.Tiles.Editing.Rows.{IsConsistent}
use heidi_microservices.Tiles.Editing.Consistent.{TileCall, after, stop, step, Calls-IsConsistent}
use heidi_microservices.Tiles.Editing.Done.{IsDone, call-IsDone}
use heidi_microservices.Tiles.Pages.{TileFilter}

abbrev no_parts : String → List String
no_parts p = []

abbrev flat : CityDb
flat = record { active_children = λ p. returned []; find_city = λ i. returned none }

flat-IsForest : IsForest flat no_parts (λ _. 0)
flat-IsForest = record { answers = λ p. refl; lower = λ p c m. absurd m }

-- Anna is city admin of Kiel; Bert has no assignment.
abbrev assigned : String → List Assignment
assigned u =
    if str_eq u "anna"
    then (record { city_id = "kiel"; role = city_admin; can_manage_admins = false }) ∷ []
    else []

abbrev core : CoreDb
core = record {
  active_assignments = λ u. returned (assigned u);
  find_permission = λ resource action r. returned none;
  permissions_of_role = λ r. returned [];
  all_permissions = returned [];
}

-- Bert claims to be city admin and manages no city: nothing holds him back.
bert_nowhere : (d : String) → ¬ ReachesBy no_parts is_city_admin (assigned "bert") d
bert_nowhere d (a, m, _, _) = absurd m

create_access_iff_example :
    create_access flat core 1 "bert" (city_admin ∷ []) (some ("kiel" ∷ [])) ≡ returned tt
create_access_iff_example =
    (create_access_iff flat core no_parts (λ _. 0) assigned flat-IsForest (λ _. refl) 1
        (λ _. omega arith) "bert" (city_admin ∷ []) (some ("kiel" ∷ []))).1
      (inr (refl, inr (inl bert_nowhere)))

abbrev row : String → String → String → TileCity
row id tile city = record {
  id = id;
  tile_id = tile;
  city_id = city;
  is_primary = true;
  display_order = 0;
}

abbrev rows : List TileCity
rows = row "r1" "t1" "kiel" ∷ row "r2" "t2" "kiel" ∷ []

abbrev to_rendsburg : TileCityReferenceDto
to_rendsburg = record { id = none; city_id = "rendsburg"; is_primary = none; display_order = none }

abbrev wanted : List String
wanted = "rendsburg" ∷ []

abbrev nothing : TileStore
nothing = record { tiles = []; tile_cities = [] }

abbrev voucher : CreateTileDto
voucher = record {
  header_background_color = none;
  header = "Kiel Gutschein";
  subheader = none;
  description = none;
  content_background_color = none;
  website_url = none;
  open_in_external_browser = none;
  display_order = none;
  is_active = none;
  cities = some ((record { city_id = "kiel"; is_primary = none; display_order = none }) ∷ []);
}

abbrev row_ids : ℕ → String
row_ids index = "r1"

abbrev creation : TileCall flat core 1
creation = TileCall.create 3 row_ids "t1" 7 "bert" (city_admin ∷ []) voucher

abbrev deletion : TileCall flat core 1
deletion = TileCall.delete "t1" "bert" (city_admin ∷ [])

nothing-IsConsistent : IsConsistent nothing
nothing-IsConsistent = record { slugs = λ r q m. absurd m; keys = tt; owners = λ r m. absurd m }

Calls-IsConsistent_example :
    IsConsistent (after flat core 1 deletion (after flat core 1 creation nothing))
Calls-IsConsistent_example =
    Calls-IsConsistent flat core 1 (step creation (λ (t, m, e). absurd m) (step deletion tt stop))
      nothing-IsConsistent

call-IsDone_example : IsDone flat core 1 creation nothing
call-IsDone_example = call-IsDone flat core 1 creation nothing

abbrev any_tile : TileFilter
any_tile = record {
  search = some " ";
  city_ids = some ("kiel" ∷ []);
  is_active = none;
  publish_after = none;
  publish_before = none;
  expire_after = none;
  expire_before = none;
  page = some 2;
  page_size = some 1;
  sort_by = some "slug";
  sort_direction = none;
}

-- Two vouchers in Kiel, of which the second one stands before the first.
abbrev coupon : String → ℕ → Tile
coupon id display_order = record {
  id = id;
  slug = id;
  background_image_url = none;
  icon_image_url = none;
  header_background_color = none;
  header = "Kiel Gutschein";
  subheader = none;
  description = none;
  content_background_color = none;
  website_url = none;
  open_in_external_browser = false;
  display_order = display_order;
  is_active = true;
  publish_at = none;
  expire_at = none;
  created_by_user_id = none;
  last_edited_by_user_id = none;
  created_at = 7;
  updated_at = 7;
}

abbrev vouchers : TileStore
vouchers = record { tiles = coupon "t1" 5 ∷ coupon "t2" 1 ∷ []; tile_cities = rows }

-- The order of two rows, with the second one first.
abbrev second_first : ℕ → String → String → List Tile → List Tile
second_first query by direction (t ∷ u ∷ []) = u ∷ t ∷ []
second_first query by direction tiles = tiles
