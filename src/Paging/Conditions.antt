-- ===== src/Paging/Conditions.antt =====
-- The conditions that `buildListingWhere` and `buildTileWhere` put together, as tests on a row.
use heidi_microservices.Common.{
  ℕ, Bool, true, false, ◌&&◌, ◌||◌, Option, none, some, List, [], ◌∷◌, String, includes, is_some,
  leb, if◌then◌else◌,
}

abbrev pub flag_eq : Bool → Bool → Bool
flag_eq true b = b
flag_eq false true = false
flag_eq false false = true

-- A condition that is there only if the filter has a value for it.
abbrev pub asked {ℓ} : {A : Type ℓ} → Option A → (A → Bool) → Bool
asked none test = true
asked (some a) test = test a

-- The same for a list, which must not be empty either.
abbrev pub asked_any : Option (List String) → (List String → Bool) → Bool
asked_any none test = true
asked_any (some []) test = true
asked_any (some (x ∷ xs)) test = test (x ∷ xs)

-- A nullable column that is in a list.
abbrev pub in_list : Option String → List String → Bool
in_list none values = false
in_list (some value) values = includes values value

-- `{ gte: after, lte: before }` on a nullable column, of which each bound may be missing.
abbrev pub in_range : Option ℕ → Option ℕ → Option ℕ → Bool
in_range after before none = false
in_range after before (some at) = asked after (λ t. leb t at) && asked before (λ t. leb at t)

-- The range, if a bound is there.
abbrev pub asked_range : Option ℕ → Option ℕ → (Option ℕ → Option ℕ → Bool) → Bool
asked_range after before test = if is_some after || is_some before then test after before else true
