-- ===== src/Categories/Removal.antt =====
-- apps/core/src/modules/categories/categories.service.ts: `deleteCategory`.
use heidi_microservices.Common.{
  ◌≡◌, refl, ap, ◌∙◌, inl, inr, Bool, true, false, not, Option, none, some, List, [], ◌∷◌, String,
  str_eq, any, select, In, In-map, In-select, either, Bool-cases, arith, if◌then◌else◌,
}
use heidi_microservices.Common.Outcome.{returned, returned-inj, thrown, not_found, bad_request}
use heidi_microservices.Common.Action.{Action}
use heidi_microservices.Listings.{ListingCategory}
use heidi_microservices.Categories.{
  Category, CityCategory, CategoryRequest, CategoryStore, find_row, update_rows,
}

abbrev is_child : String → Category → Bool
is_child id c = elim c.parent_id [ none ↦ false | some parent ↦ str_eq parent id ]

abbrev orphan : Category → Category
orphan c = record c { parent_id = none }

-- The schema lets the rows of towns, requests and listings go with the category, and its children
-- without a parent.
abbrev pub without_category : String → CategoryStore → CategoryStore
without_category id s = record s {
  categories = update_rows (is_child id) orphan (select (λ c. not (str_eq c.id id)) s.categories);
  city_categories = select (λ r. not (str_eq r.category_id id)) s.city_categories;
  requests = select (λ r. not (str_eq r.category_id id)) s.requests;
  listing_categories = select (λ r. not (str_eq r.category_id id)) s.listing_categories;
}

unfoldable pub delete_found : String → Option Category → Action CategoryStore Category
delete_found id none s = (thrown (not_found "CATEGORY_NOT_FOUND"), s)
delete_found id (some category) s = (returned category, without_category id s)

unfoldable pub delete_category : String → Action CategoryStore Category
delete_category id s =
    if any (λ (r : ListingCategory). str_eq r.category_id id) s.listing_categories
    then (thrown (bad_request "CATEGORY_IN_USE"), s)
    else delete_found id (find_row (λ c. str_eq c.id id) s.categories) s

-- No row names the category.
pub record IsGone (id : String) (s : CategoryStore) : Type 0 where
  pub category : (c : Category) → In c s.categories → str_eq c.id id ≡ false
  pub children : (c : Category) → In c s.categories → is_child id c ≡ false
  pub towns : (r : CityCategory) → In r s.city_categories → str_eq r.category_id id ≡ false
  pub requests : (r : CategoryRequest) → In r s.requests → str_eq r.category_id id ≡ false
  pub listings : (r : ListingCategory) → In r s.listing_categories → str_eq r.category_id id ≡ false

none_left :
    {A : Type 0} (p : A → Bool) (xs : List A) (a : A)
    → In a (select (λ x. not (p x)) xs)
    → p a ≡ false
none_left p xs a m = let (_, h) = (In-select (λ x. not (p x)) xs a).0 m in ground (arith, h)

none_of :
    {A : Type 0} (p : A → Bool) (xs : List A) (a : A) → any p xs ≡ false → In a xs → p a ≡ false
none_of p [] a h m = absurd m
none_of p (x ∷ xs) a h m = elim (Bool-cases (p x)) [
  | inl e ↦ let k : true ≡ false = rw e at h in cc
  | inr e ↦ elim m [ inl same ↦ rw same e | inr n ↦ none_of p xs a (rw e at h) n ]
]

without_category-IsGone : (id : String) (s : CategoryStore) → IsGone id (without_category id s)
without_category-IsGone id s = record {
  category = λ c m.
      let (q, i, e) = kept c m in
      rw e (
        either (λ (x : Category). str_eq x.id id ≡ false) (is_child id q) (λ _. left q i)
          (λ _. left q i));
  children = λ c m. let (q, i, e) = kept c m in rw e (no_child q);
  towns = λ r m. none_left (λ q. str_eq q.category_id id) s.city_categories r m;
  requests = λ r m. none_left (λ q. str_eq q.category_id id) s.requests r m;
  listings = λ r m. none_left (λ q. str_eq q.category_id id) s.listing_categories r m;
}
  where
    rest : List Category
    rest = select (λ c. not (str_eq c.id id)) s.categories

    kept :
        (c : Category)
        → In c (update_rows (is_child id) orphan rest)
        → (q : Category) × In q rest × (c ≡ (if is_child id q then orphan q else q))
    kept c m = (In-map (λ q. if is_child id q then orphan q else q) rest c).0 m

    left : (q : Category) → In q rest → str_eq q.id id ≡ false
    left q i = none_left (λ c. str_eq c.id id) s.categories q i

    no_child : (q : Category) → is_child id (if is_child id q then orphan q else q) ≡ false
    no_child q = elim (Bool-cases (is_child id q)) [ inl e ↦ rw e | inr e ↦ rw (e, e) ]

-- A selection that every row passes.
select_all :
    {A : Type 0} (p : A → Bool) (xs : List A)
    → ((a : A) → In a xs → p a ≡ false)
    → select (λ x. not (p x)) xs ≡ xs
select_all p [] h = refl
select_all p (x ∷ xs) h = rw (h x (inl refl), select_all p xs (λ a m. h a (inr m)))

-- What a deletion that returned has found and done.
pub record IsDeleted (id : String) (c : Category) (s t : CategoryStore) : Type 0 where
  pub found : find_row (λ (q : Category). str_eq q.id id) s.categories ≡ some c
  pub unused : (r : ListingCategory) → In r s.listing_categories → str_eq r.category_id id ≡ false
  pub gone : IsGone id t
  pub listings_kept : t.listing_categories ≡ s.listing_categories

-- `deleteCategory` returns only if the category exists and no listing has it; then no row names it any
-- more, and the categories of listings are as they were.
pub delete_category-IsDeleted :
    (id : String) (s : CategoryStore) (c : Category)
    → (delete_category id s).0 ≡ returned c
    → IsDeleted id c s (delete_category id s).1
unfolding delete_category delete_found
delete_category-IsDeleted id s c h =
    by_use (any (λ (r : ListingCategory). str_eq r.category_id id) s.listing_categories) refl h
  where
    found : Option Category
    found = find_row (λ q. str_eq q.id id) s.categories

    by_row :
        any (λ (r : ListingCategory). str_eq r.category_id id) s.listing_categories ≡ false
        → (o : Option Category) → found ≡ o
        → (delete_found id o s).0 ≡ returned c
        → IsDeleted id c s (delete_found id o s).1
    by_row e none f h = cc
    by_row e (some q) f h =
        let unused : (r : ListingCategory)
            → In r s.listing_categories
            → str_eq r.category_id id ≡ false =
          λ r m. none_of (λ q. str_eq q.category_id id) s.listing_categories r e m in
        record {
          found = f ∙ ap some (returned-inj h);
          unused = unused;
          gone = without_category-IsGone id s;
          listings_kept = select_all (λ q. str_eq q.category_id id) s.listing_categories unused;
        }

    by_use :
        (b : Bool)
        → any (λ (r : ListingCategory). str_eq r.category_id id) s.listing_categories ≡ b
        → (if b then (thrown (bad_request "CATEGORY_IN_USE"), s) else delete_found id found s).0
          ≡ returned c
        → IsDeleted id c s
            (if b then (thrown (bad_request "CATEGORY_IN_USE"), s) else delete_found id found s).1
    by_use true e h = cc
    by_use false e h = by_row e found refl h

-- The rows that are left have the identifiers and slugs that they had.
pub delete_category_kept :
    (id : String) (s : CategoryStore) (c : Category)
    → In c (delete_category id s).1.categories
    → (q : Category) × In q s.categories × (c.id ≡ q.id) × (c.slug ≡ q.slug)
unfolding delete_category delete_found
delete_category_kept id s c m =
    by_use (any (λ (r : ListingCategory). str_eq r.category_id id) s.listing_categories) m
  where
    by_row :
        (o : Option Category)
        → In c (delete_found id o s).1.categories
        → (q : Category) × In q s.categories × (c.id ≡ q.id) × (c.slug ≡ q.slug)
    by_row none n = (c, n, refl, refl)
    by_row (some d) n =
        let rest = select (λ c. not (str_eq c.id id)) s.categories in
        let (q, i, e) = (In-map (λ q. if is_child id q then orphan q else q) rest c).0 n in
        let there = ((In-select (λ c. not (str_eq c.id id)) s.categories q).0 i).0 in
        (
          q,
          there,
          ap Category.id e
              ∙ either (λ (x : Category). x.id ≡ q.id) (is_child id q) (λ _. refl) (λ _. refl),
          ap Category.slug e
              ∙ either (λ (x : Category). x.slug ≡ q.slug) (is_child id q) (λ _. refl) (λ _. refl),
        )

    by_use :
        (b : Bool)
        → In c
            (if b
              then (thrown (bad_request "CATEGORY_IN_USE"), s)
              else delete_found id (find_row (λ q. str_eq q.id id) s.categories) s).1.categories
        → (q : Category) × In q s.categories × (c.id ≡ q.id) × (c.slug ≡ q.slug)
    by_use true n = (c, n, refl, refl)
    by_use false n = by_row (find_row (λ q. str_eq q.id id) s.categories) n
