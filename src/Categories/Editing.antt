-- ===== src/Categories/Editing.antt =====
-- apps/core/src/modules/categories/categories.service.ts: `createCategory`, `updateCategory` and
-- `updateCityCategoryDisplayName`.
pub mod Unique
use heidi_microservices.Common.{
  set_or_keep, ℕ, refl, Bool, true, false, ◌&&◌, not, Option, none, some, List, [], ◌∷◌, ◌++◌,
  String, str_eq, text_append, any, or_else, truthy, if◌then◌else◌,
}
use heidi_microservices.Common.Decimals.{decimal}
use heidi_microservices.Common.Outcome.{Outcome, returned, thrown, unfinished, failure, not_found}
use heidi_microservices.Common.Action.{Action, ◌>>=◌, pure, query, continue}
use heidi_microservices.Database.{Table}
use heidi_microservices.Database.Memory.{memory}
use heidi_microservices.Slugs.{slugify, ensure_unique_slug, slug_if_set}
use heidi_microservices.Categories.{
  Category, CityCategory, CategoryStore, find_row, update_rows, is_mapping, has_category,
}

-- The table of categories, as the part of the store that it is.
abbrev pub category_table : Table CategoryStore Category
category_table =
    memory CategoryStore.categories (λ rows s. record s { categories = rows }) (λ rows s. refl)

pub record CreateCategoryDto : Type 0 where
  pub name : String
  pub slug : Option String
  pub description : Option String
  pub subtitle : Option String
  pub type : Option String
  pub parent_id : Option String
  pub is_active : Option Bool
  pub header_background_color : Option String
  pub content_background_color : Option String

-- `ensureUniqueCategorySlug`
pub ensure_unique_category_slug : ℕ → String → Option String → CategoryStore → Outcome String
ensure_unique_category_slug = ensure_unique_slug category_table Category.slug Category.id

abbrev category_slug : CreateCategoryDto → ℕ → String
category_slug dto now =
    let candidate = if truthy dto.slug then slugify (or_else dto.slug "") else slugify dto.name in
    if truthy (some candidate)
    then candidate
    else slugify (text_append dto.name (text_append "-" (decimal now)))

-- `connect` of a parent that does not exist throws.
abbrev misses_parent : Option String → CategoryStore → Bool
misses_parent parent s = truthy parent && not (has_category (or_else parent "") s)

abbrev parent_or_none : Option String → Option String
parent_or_none parent = if truthy parent then parent else none

pub created_category : String → String → CreateCategoryDto → Category
created_category id slug dto = record {
  id = id;
  name = dto.name;
  slug = slug;
  description = dto.description;
  subtitle = dto.subtitle;
  type = dto.type;
  parent_id = parent_or_none dto.parent_id;
  is_active = or_else dto.is_active true;
  header_background_color = dto.header_background_color;
  content_background_color = dto.content_background_color;
}

insert_category : String → CreateCategoryDto → String → Action CategoryStore Category
insert_category id dto slug s =
    if misses_parent dto.parent_id s then (thrown (failure "P2025"), s) else (
      returned (created_category id slug dto),
      record s { categories = s.categories ++ created_category id slug dto ∷ [] },
    )

pub create_category : ℕ → String → ℕ → CreateCategoryDto → Action CategoryStore Category
create_category fuel id now dto =
    query (ensure_unique_category_slug fuel (category_slug dto now) none) >>= insert_category id dto

-- A field that is absent is `none`; one that may be null is an option in it.
pub record UpdateCategoryDto : Type 0 where
  pub name : Option String
  pub slug : Option String
  pub description : Option (Option String)
  pub subtitle : Option (Option String)
  pub type : Option (Option String)
  pub parent_id : Option (Option String)
  pub is_active : Option Bool
  pub header_background_color : Option (Option String)
  pub content_background_color : Option (Option String)

abbrev parent_of : Option (Option String) → Option String
parent_of none = none
parent_of (some parent) = parent

abbrev pub patched_category : Option String → UpdateCategoryDto → Category → Category
patched_category slug dto c = record {
  id = c.id;
  name = or_else dto.name c.name;
  slug = or_else slug c.slug;
  description = or_else dto.description c.description;
  subtitle = or_else dto.subtitle c.subtitle;
  type = or_else dto.type c.type;
  parent_id = elim dto.parent_id [ none ↦ c.parent_id | some parent ↦ parent_or_none parent ];
  is_active = or_else dto.is_active c.is_active;
  header_background_color = or_else dto.header_background_color c.header_background_color;
  content_background_color = or_else dto.content_background_color c.content_background_color;
}

write_category :
    String → UpdateCategoryDto → Option String → Option Category → Action CategoryStore Category
write_category id dto slug none s = (thrown (failure "P2025"), s)
write_category id dto slug (some c) s =
    if misses_parent (parent_of dto.parent_id) s then (thrown (failure "P2025"), s) else (
      returned (patched_category slug dto c),
      record s {
        categories = update_rows (λ q. str_eq q.id id) (patched_category slug dto) s.categories;
      },
    )

pub update_category : ℕ → String → UpdateCategoryDto → Action CategoryStore Category
update_category fuel id dto =
    slug_if_set category_table Category.slug Category.id fuel id dto.slug >>= λ slug s.
    write_category id dto slug (find_row (λ q. str_eq q.id id) s.categories) s

-- What `updateCityCategoryDisplayName` writes; a color may be set to null.
abbrev pub named :
    Option String
    → Option ℕ
    → Option (Option String)
    → Option (Option String)
    → CityCategory
    → CityCategory
named display_name order header content r = record r {
  display_name = display_name;
  display_order = or_else order r.display_order;
  header_background_color = or_else header r.header_background_color;
  content_background_color = or_else content r.content_background_color;
}

name_found :
    String
    → String
    → (CityCategory → CityCategory)
    → Option CityCategory
    → Action CategoryStore CityCategory
name_found city category change none s = (thrown (not_found "CITY_CATEGORY_MAPPING_NOT_FOUND"), s)
name_found city category change (some existing) s = (
  returned (change existing),
  record s { city_categories = update_rows (is_mapping city category) change s.city_categories },
)

pub update_city_category_display_name :
    String
    → String
    → Option String
    → Option ℕ
    → Option (Option String)
    → Option (Option String)
    → Action CategoryStore CityCategory
update_city_category_display_name city category display_name order header content s =
    name_found city category (named display_name order header content)
      (find_row (is_mapping city category) s.city_categories) s
