-- ===== src/Database.antt =====
-- The calls of Prisma that the services make on one table, as an interface: the client is not part
-- of the repository. `rows` is what the table holds in a state of the database.
pub mod Memory
use heidi_microservices.Common.{
  ℕ, ◌≤◌, ◌≡◌, ◌⊎◌, inl, inr, sym, Bool-cases, Bool, true, false, Option, none, some, List, [], ◌∷◌,
  ◌++◌, map, In, String, ◌||◌, includes, if◌then◌else◌,
}
use heidi_microservices.Common.Outcome.{Outcome, returned}
use heidi_microservices.Common.Action.{Action}

pub record Table (S Row : Type 0) : Type 0 where
  pub rows : S → List Row
  -- `findUnique` and `findFirst` without an order
  pub find : (Row → Bool) → S → Outcome (Option Row)
  -- `findFirst` with `orderBy: { key: 'desc' }`
  pub find_newest : (Row → Bool) → (Row → ℕ) → S → Outcome (Option Row)
  -- `findMany`
  pub find_many : (Row → Bool) → S → Outcome (List Row)
  pub create : Row → Action S Row
  -- `update` of the row with a unique key
  pub update : (Row → Bool) → (Row → Row) → Action S Row
  pub update_many : (Row → Bool) → (Row → Row) → Action S ℕ

-- The rows after an update.
abbrev pub apply_where : {Row : Type 0} → (Row → Bool) → (Row → Row) → List Row → List Row
apply_where p f rows = map (λ r. if p r then f r else r) rows

-- The first row that passes a test: `findUnique`.
abbrev pub find_row {ℓ} : {A : Type ℓ} → (A → Bool) → List A → Option A
find_row p [] = none
find_row p (r ∷ rest) = if p r then some r else find_row p rest

-- A key that a list of new rows would give twice.
abbrev pub has_twice : List String → Bool
has_twice [] = false
has_twice (x ∷ xs) = includes xs x || has_twice xs

abbrev pub update_rows {ℓ} : {A : Type ℓ} → (A → Bool) → (A → A) → List A → List A
update_rows p f rows = map (λ r. if p r then f r else r) rows

-- A write that is not answered by a value has changed nothing.
abbrev pub Effect : {S Row A : Type 0} → (S → List Row) → List Row → S → Outcome A × S → Type 0
Effect {A} rows after s (m, t) =
    ((a : A) × (m ≡ returned a) × (rows t ≡ after))
    ⊎ (((a : A) → ¬ (m ≡ returned a)) × (rows t ≡ rows s))

-- A write that was answered by a value has made its change.
pub Effect-returned :
    {S Row A : Type 0} (rows : S → List Row) (after : List Row) (s : S) (r : Outcome A × S) {a : A}
    → r.0 ≡ returned a
    → Effect rows after s r
    → rows r.1 ≡ after
Effect-returned rows after s r k (inl (_, _, e)) = e
Effect-returned rows after s r {a} k (inr (never, _)) = absurd (never a k)

-- What the services rely on.
pub record IsTable {S Row : Type 0} (table : Table S Row) : Type 0 where
  pub find_some :
      (p : Row → Bool) (s : S) (r : Row)
      → table.find p s ≡ returned (some r)
      → In r (table.rows s) × (p r ≡ true)
  pub find_none :
      (p : Row → Bool) (s : S)
      → table.find p s ≡ returned none
      → (r : Row) → In r (table.rows s)
      → p r ≡ false
  pub newest_some :
      (p : Row → Bool) (key : Row → ℕ) (s : S) (r : Row)
      → table.find_newest p key s ≡ returned (some r)
      → In r (table.rows s)
        × (p r ≡ true)
        × ((q : Row) → In q (table.rows s) → p q ≡ true → key q ≤ key r)
  pub newest_none :
      (p : Row → Bool) (key : Row → ℕ) (s : S)
      → table.find_newest p key s ≡ returned none
      → (r : Row) → In r (table.rows s)
      → p r ≡ false
  pub create_effect :
      (r : Row) (s : S) → Effect table.rows (table.rows s ++ r ∷ []) s (table.create r s)
  pub create_row : (r q : Row) (s : S) → (table.create r s).0 ≡ returned q → q ≡ r
  pub update_effect :
      (p : Row → Bool) (f : Row → Row) (s : S)
      → Effect table.rows (apply_where p f (table.rows s)) s (table.update p f s)
  pub update_many_effect :
      (p : Row → Bool) (f : Row → Row) (s : S)
      → Effect table.rows (apply_where p f (table.rows s)) s (table.update_many p f s)

pub find_row-eq-some :
    {Row : Type 0} (p : Row → Bool) (rows : List Row) (r : Row)
    → find_row p rows ≡ some r
    → In r rows × (p r ≡ true)
find_row-eq-some p [] r h = cc
find_row-eq-some p (q ∷ rows) r h = elim (Bool-cases (p q)) [
  | inl e ↦ let same : q ≡ r = cc (rw e at h) in (inl (sym same), rw (← same) e)
  | inr e ↦ let (m, k) = find_row-eq-some p rows r (rw e at h) in (inr m, k)
]
