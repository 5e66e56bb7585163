-- ===== src/Categories/Editing/Unique.antt =====
-- apps/core/src/modules/categories/categories.service.ts: the slugs of categories stay unique.
use heidi_microservices.Common.{ℕ, ◌≡◌, refl, Option, none, some, String, str_eq, either}
use heidi_microservices.Common.Outcome.{Outcome, returned, thrown, unfinished}
use heidi_microservices.Common.Action.{continue, Keeps}
use heidi_microservices.Database.{IsTable}
use heidi_microservices.Database.Memory.{memory-IsTable}
use heidi_microservices.Slugs.{slug_if_set}
use heidi_microservices.Slugs.Kept
use heidi_microservices.Slugs.Kept.{
  AreUnique, append-AreUnique, kept-AreUnique, unused, update_rows-AreUnique, slug_if_set_lem,
}
use heidi_microservices.Slugs.Unique.{ensure_unique_slug-IsFreeFor}
use heidi_microservices.Categories.{Category, CategoryStore, find_row}
use heidi_microservices.Categories.Editing.{
  category_table, CreateCategoryDto, UpdateCategoryDto, ensure_unique_category_slug,
  created_category, insert_category, create_category, patched_category, write_category,
  update_category, category_slug, misses_parent, parent_of,
}
use heidi_microservices.Categories.Removal.{delete_category, delete_category_kept}

abbrev pub HasUniqueSlugs : CategoryStore → Type 0
HasUniqueSlugs s = AreUnique Category.slug Category.id s.categories

table-IsTable : IsTable category_table
table-IsTable =
    memory-IsTable CategoryStore.categories (λ rows s. record s { categories = rows })
      (λ rows s. refl)

abbrev IsFree : Option String → String → CategoryStore → Type 0
IsFree = Kept.IsFree Category.slug Category.id category_table table-IsTable

abbrev Chosen : String → Option String → CategoryStore → Type 0
Chosen = Kept.Chosen Category.slug Category.id category_table table-IsTable

create_category-HasUniqueSlugs :
    (fuel : ℕ) (id : String) (now : ℕ) (dto : CreateCategoryDto)
    → Keeps HasUniqueSlugs (create_category fuel id now dto)
unfolding create_category insert_category ensure_unique_category_slug created_category
create_category-HasUniqueSlugs fuel id now dto s h =
    by_slug (ensure_unique_category_slug fuel (category_slug dto now) none s) refl
  where
    inserted :
        (slug : String) → IsFree none slug s → HasUniqueSlugs (insert_category id dto slug s).1
    inserted slug free =
        either (λ (r : Outcome Category × CategoryStore). HasUniqueSlugs r.1)
          (misses_parent dto.parent_id s) (λ _. h)
          (λ _.
            append-AreUnique Category.slug Category.id s.categories (created_category id slug dto) h
              (unused Category.slug Category.id category_table table-IsTable slug s free))

    by_slug :
        (o : Outcome String)
        → ensure_unique_category_slug fuel (category_slug dto now) none s ≡ o
        → HasUniqueSlugs (continue (insert_category id dto) (o, s)).1
    by_slug (returned slug) e = inserted slug (
        ensure_unique_slug-IsFreeFor category_table table-IsTable Category.slug Category.id fuel
          (category_slug dto now) none s slug e)
    by_slug (thrown x) e = h
    by_slug unfinished e = h

update_category-HasUniqueSlugs :
    (fuel : ℕ) (id : String) (dto : UpdateCategoryDto)
    → Keeps HasUniqueSlugs (update_category fuel id dto)
unfolding update_category write_category
update_category-HasUniqueSlugs fuel id dto s h =
    let (same, chosen) =
      slug_if_set_lem Category.slug Category.id category_table table-IsTable fuel id dto.slug s in
    by_run (slug_if_set category_table Category.slug Category.id fuel id dto.slug s) same chosen
  where
    find : CategoryStore → Option Category
    find s = find_row (λ q. str_eq q.id id) s.categories

    written :
        (slug : Option String)
        → Chosen id slug s
        → (o : Option Category) → HasUniqueSlugs (write_category id dto slug o s).1
    written slug c none = h
    written slug c (some q) =
        either (λ (r : Outcome Category × CategoryStore). HasUniqueSlugs r.1)
          (misses_parent (parent_of dto.parent_id) s) (λ _. h)
          (λ _.
            update_rows-AreUnique Category.slug Category.id category_table table-IsTable id slug
              (patched_category slug dto) s h c (λ r. refl) (λ r. refl))

    by_run :
        (r : Outcome (Option String) × CategoryStore)
        → r.1 ≡ s
        → ((free : Option String) → r.0 ≡ returned free → Chosen id free s)
        → HasUniqueSlugs (continue (λ slug s. write_category id dto slug (find s) s) r).1
    by_run (returned slug, t) e c = rw e (written slug (c slug refl) (find s))
    by_run (thrown x, t) e c = rw e h
    by_run (unfinished, t) e c = rw e h

-- A call of one of the methods that write categories, whatever it answers.
pub data Edit : CategoryStore → CategoryStore → Type 0 where
  create :
      {s : CategoryStore} (fuel : ℕ) (id : String) (now : ℕ) (dto : CreateCategoryDto)
      → Edit s (create_category fuel id now dto s).1
  update :
      {s : CategoryStore} (fuel : ℕ) (id : String) (dto : UpdateCategoryDto)
      → Edit s (update_category fuel id dto s).1
  delete : {s : CategoryStore} (id : String) → Edit s (delete_category id s).1

pub data Edits : CategoryStore → CategoryStore → Type 0 where
  stop : {s : CategoryStore} → Edits s s
  step : {s t u : CategoryStore} → Edit s t → Edits t u → Edits s u

edited_once : {s t : CategoryStore} → Edit s t → HasUniqueSlugs s → HasUniqueSlugs t
edited_once (create fuel id now dto) h = create_category-HasUniqueSlugs fuel id now dto _ h
edited_once (update fuel id dto) h = update_category-HasUniqueSlugs fuel id dto _ h
edited_once {s} (delete id) h =
    kept-AreUnique Category.slug Category.id s.categories (delete_category id s).1.categories h
      (delete_category_kept id s)

-- Whatever categories are created, changed and deleted, with whatever answers, no two of them have the
-- same slug, if that held before.
pub Edits-HasUniqueSlugs : {s t : CategoryStore} → Edits s t → HasUniqueSlugs s → HasUniqueSlugs t
Edits-HasUniqueSlugs stop h = h
Edits-HasUniqueSlugs (step first rest) h = Edits-HasUniqueSlugs rest (edited_once first h)
