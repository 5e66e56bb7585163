-- ===== src/Paging.antt =====
-- The pages that `listListings` of apps/core/src/modules/listings/listings.service.ts and `listTiles` of
-- apps/core/src/modules/tiles/tiles.service.ts answer with, in the same words. The numbers of a request
-- are whole; one that is not positive counts as absent, like 0 here.
pub mod Conditions
pub mod Joined
pub mod Ordered
use heidi_microservices.Common.{
  ℕ, zero, suc, ◌+◌, ◌-◌, ◌*◌, ◌/◌, Bool, true, false, ◌&&◌, Option, none, some, List, [], ◌∷◌,
  String, truthy, or_else, includes, take, leb, if◌then◌else◌,
}

-- `filter.page && filter.page > 0 ? filter.page : 1`
abbrev pub positive_or : ℕ → Option ℕ → ℕ
positive_or default none = default
positive_or default (some zero) = default
positive_or default (some (suc n)) = suc n

-- `Math.min(pageSizeCandidate, 100)`
abbrev pub page_size : Option ℕ → ℕ
page_size asked =
    let candidate = positive_or 20 asked in if leb candidate 100 then candidate else 100

-- `Math.max(1, Math.ceil(total / pageSize))`; a size of pages is not 0.
abbrev pub pages_of : ℕ → ℕ → ℕ
pages_of total size = let pages = (total + (size - 1)) / size in if leb 1 pages then pages else 1

abbrev pub drop {ℓ} : {A : Type ℓ} → ℕ → List A → List A
drop zero xs = xs
drop (suc n) [] = []
drop (suc n) (x ∷ xs) = drop n xs

-- `skip` and `take` of the page that is asked for.
abbrev pub page_rows {ℓ} : {A : Type ℓ} → Option ℕ → Option ℕ → List A → List A
page_rows page size rows =
    take (page_size size) (drop ((positive_or 1 page - 1) * page_size size) rows)

-- The field to sort by, if it is one of the allowed ones.
abbrev pub sort_field : List String → String → Option String → String
sort_field allowed default by =
    if truthy by && includes allowed (or_else by "") then or_else by "" else default
