-- ===== src/Slugs/Tests.antt =====
-- Slugs in a table of pairs of an identifier and a slug.
use heidi_microservices.Common.{◌≡◌, refl, arith, none, List, [], ◌∷◌, String}
use heidi_microservices.Common.Outcome.{returned}
use heidi_microservices.Database.{Table, IsTable}
use heidi_microservices.Database.Memory.{memory, memory-IsTable}
use heidi_microservices.Slugs.{slugify, ensure_unique_slug}
use heidi_microservices.Slugs.Unique.{IsFreeFor, ensure_unique_slug_returns}
use heidi_microservices.Slugs.Clean.{IsSlug, slugify-IsSlug}

abbrev Rows : Type 0
Rows = List (String × String)

abbrev table : Table Rows (String × String)
table = memory (λ (s : Rows). s) (λ rs s. rs) (λ rs s. refl)

table-IsTable : IsTable table
table-IsTable = memory-IsTable (λ (s : Rows). s) (λ rs s. rs) (λ rs s. refl)

abbrev taken : Rows
taken = ("1", "summer-fair") ∷ ("2", "summer-fair-1") ∷ []

ensure_unique_slug_returns_example :
    (slug : String) × (ensure_unique_slug table (λ r. r.1) (λ r. r.0) 3 "summer-fair" none taken
      ≡ returned slug)
    × IsFreeFor table table-IsTable (λ r. r.1) (λ r. r.0) none slug taken
ensure_unique_slug_returns_example =
    ensure_unique_slug_returns table table-IsTable (λ r. r.1) (λ r. r.0) 3 "summer-fair" none taken
      (omega arith) (λ p. (_, refl))

summer : slugify " Sommerfest & Flohmarkt 2025! " ≡ "sommerfest-flohmarkt-2025"
unfolding slugify
summer = refl

slugify-IsSlug_example : IsSlug (slugify " Sommerfest & Flohmarkt 2025! ")
slugify-IsSlug_example = slugify-IsSlug " Sommerfest & Flohmarkt 2025! "
