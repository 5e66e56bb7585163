-- ===== src/Categories/Tests.antt =====
-- Two categories, one of which a town asks for.
use heidi_microservices.Common.{
  str_eq, eq_iff, ◌≢◌, ℕ, List, String, sym, ap, ◌∙◌, ◌↔◌, In, length, ◌≡◌, refl, inl, inr, true,
  none, some, [], ◌∷◌,
}
use heidi_microservices.Common.Outcome.{returned}
use heidi_microservices.Categories.{
  Category, CategoryRequest, CategoryStore, RequestStatus, assign_category_to_city, handled,
  handle_category_request, update_request, offer_if_approved,
}
use heidi_microservices.Categories.Offers.{IsOffered, handle_category_request-IsOffered}
use heidi_microservices.Categories.Removal.{
  IsDeleted, delete_category, delete_found, delete_category-IsDeleted,
}
use heidi_microservices.Categories.Editing.{CreateCategoryDto, create_category}
use heidi_microservices.Categories.Editing.Unique.{
  stop, step, create, delete, HasUniqueSlugs, Edits-HasUniqueSlugs,
}
use heidi_microservices.Categories.Hierarchy.{
  Tree, Trees, place_all, trees_of, tree_at, build_category_hierarchy, all_members,
}
use heidi_microservices.Categories.Hierarchy.Equal.{AreKeys, forest, build_category_hierarchy-eq}
use heidi_microservices.Categories.Hierarchy.Rooted.{Rooted, build_category_hierarchy_iff}

abbrev events : Category
events = record {
  id = "k1";
  name = "Events";
  slug = "events";
  description = none;
  subtitle = none;
  type = some "EVENT";
  parent_id = none;
  is_active = true;
  header_background_color = none;
  content_background_color = none;
}

abbrev first_request : CategoryRequest
first_request = record {
  id = "q1";
  city_id = "c1";
  category_id = "k1";
  status = RequestStatus.pending;
  requested_by = "ann";
  requested_at = 3;
  handled_by = none;
  handled_at = none;
  notes = none;
}

abbrev start : CategoryStore
start = record {
  categories = events ∷ [];
  city_categories = [];
  requests = first_request ∷ [];
  listing_categories = [];
}

abbrev new_events : CreateCategoryDto
new_events = record {
  name = "Events";
  slug = none;
  description = none;
  subtitle = none;
  type = none;
  parent_id = some "k1";
  is_active = none;
  header_background_color = none;
  content_background_color = none;
}

approval :
    (handle_category_request "m1" 5 "q1" RequestStatus.approved "root" none start).0
    ≡ returned (handled RequestStatus.approved "root" 5 none first_request)
unfolding handle_category_request update_request offer_if_approved assign_category_to_city
approval = refl

handle_category_request-IsOffered_example :
    IsOffered "q1" start
      (handle_category_request "m1" 5 "q1" RequestStatus.approved "root" none start).1
handle_category_request-IsOffered_example =
    handle_category_request-IsOffered "m1" 5 "root" none "q1" start
      (handled RequestStatus.approved "root" 5 none first_request) approval

deletion : (delete_category "k1" start).0 ≡ returned events
unfolding delete_category delete_found
deletion = refl

delete_category-IsDeleted_example : IsDeleted "k1" events start (delete_category "k1" start).1
delete_category-IsDeleted_example = delete_category-IsDeleted "k1" start events deletion

start-HasUniqueSlugs : HasUniqueSlugs start
start-HasUniqueSlugs r q (inl a) (inl b) e = rw (a, b)
start-HasUniqueSlugs r q (inl a) (inr z) e = absurd z
start-HasUniqueSlugs r q (inr z) n e = absurd z

abbrev more : CategoryStore
more = (create_category 3 "k2" 7 new_events start).1

Edits-HasUniqueSlugs_example : HasUniqueSlugs (delete_category "k1" more).1
Edits-HasUniqueSlugs_example =
    Edits-HasUniqueSlugs (step (create 3 "k2" 7 new_events) (step (delete "k1") stop))
      start-HasUniqueSlugs

-- A category below the events, and two that are each other's parent.
abbrev with_parent : String → String → Category
with_parent id parent = record events { id = id; slug = id; parent_id = some parent }

abbrev family : List Category
family = with_parent "k2" "k1" ∷ events ∷ with_parent "k3" "k4" ∷ with_parent "k4" "k3" ∷ []

-- Those two are not answered.
family_trees :
    build_category_hierarchy family
    ≡ Trees.next
        (Tree.tree events (Trees.next (Tree.tree (with_parent "k2" "k1") Trees.end) Trees.end))
        Trees.end
unfolding build_category_hierarchy place_all trees_of tree_at
family_trees = refl

abbrev pair : List Category
pair = with_parent "k2" "k1" ∷ events ∷ []

two_ids : (a b : String) → a ≡ "k2" → b ≡ "k1" → a ≢ b
two_ids a b x y e =
    let z = (eq_iff a b).1 e in let w : str_eq "k2" "k1" ≡ true = rw (x, y) at z in cc

pair_keys : AreKeys pair
pair_keys c q (inl a) (inl b) e = a ∙ sym b
pair_keys c q (inl a) (inr (inl b)) e =
    absurd (two_ids c.id q.id (ap Category.id a) (ap Category.id b) e)
pair_keys c q (inr (inl a)) (inl b) e =
    absurd (two_ids q.id c.id (ap Category.id b) (ap Category.id a) (sym e))
pair_keys c q (inr (inl a)) (inr (inl b)) e = a ∙ sym b
pair_keys c q (inr (inr z)) n e = absurd z
pair_keys c q (inl a) (inr (inr z)) e = absurd z
pair_keys c q (inr (inl a)) (inr (inr z)) e = absurd z

build_category_hierarchy-eq_example : build_category_hierarchy pair ≡ forest (length pair) pair
build_category_hierarchy-eq_example = build_category_hierarchy-eq pair pair_keys

build_category_hierarchy_iff_example :
    In (with_parent "k2" "k1") (all_members (build_category_hierarchy pair))
    ↔ ((d : ℕ) × Rooted pair d (with_parent "k2" "k1"))
build_category_hierarchy_iff_example =
    build_category_hierarchy_iff pair pair_keys (with_parent "k2" "k1")
