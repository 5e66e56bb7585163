-- ===== src/Common/Lists.antt =====
-- Lists: `length`, membership, and the array methods `some`, `every`, `filter`, with their laws.
use Prim.Native.Nat.{ℕ, zero, suc, ◌+◌, ◌<◌}
use mathlib.Core.Path.{◌≡◌, refl}
use mathlib.Core.Logic.{◌⊎◌, inl, inr, ◌↔◌}
use mathlib.Core.Bool.{Bool, true, false, ◌&&◌, ◌||◌}
use mathlib.Core.Option.{Option, none, some}
use mathlib.Core.List.{List, [], ◌∷◌, ◌++◌, map}
use native.Mathlib.Omega.{arith}
use heidi_microservices.Common.Tests.{if◌then◌else◌, Bool-cases}

module _ {ℓ} {A : Type ℓ} where
  abbrev pub length : List A → ℕ
  length [] = 0
  length (x ∷ xs) = suc (length xs)

  abbrev pub get_elem? : List A → ℕ → Option A
  get_elem? [] i = none
  get_elem? (x ∷ xs) zero = some x
  get_elem? (x ∷ xs) (suc i) = get_elem? xs i

  -- A write out of bounds changes nothing.
  abbrev pub update_at : List A → ℕ → (A → A) → List A
  update_at [] i f = []
  update_at (x ∷ xs) zero f = f x ∷ xs
  update_at (x ∷ xs) (suc i) f = x ∷ update_at xs i f

  -- `xs.some(p)`
  abbrev pub any : (A → Bool) → List A → Bool
  any p [] = false
  any p (x ∷ xs) = p x || any p xs

  -- `xs.every(p)`
  abbrev pub every : (A → Bool) → List A → Bool
  every p [] = true
  every p (x ∷ xs) = p x && every p xs

  -- `xs.filter(p)`
  abbrev pub select : (A → Bool) → List A → List A
  select p [] = []
  select p (x ∷ xs) = if p x then x ∷ select p xs else select p xs

  abbrev pub take : ℕ → List A → List A
  take zero xs = []
  take (suc n) [] = []
  take (suc n) (x ∷ xs) = x ∷ take n xs

  pub select-append :
      (p : A → Bool) (xs ys : List A) → select p (xs ++ ys) ≡ select p xs ++ select p ys
  select-append p [] ys = refl
  select-append p (x ∷ xs) ys = elim (Bool-cases (p x)) [
    | inl e ↦ rw (e, select-append p xs ys)
    | inr e ↦ rw (e, select-append p xs ys)
  ]

  pub take-suc :
      (n : ℕ) (xs : List A) (a : A)
      → get_elem? xs n ≡ some a
      → take (suc n) xs ≡ take n xs ++ a ∷ []
  take-suc n [] a h = cc
  take-suc zero (x ∷ xs) a h = ground arith
  take-suc (suc n) (x ∷ xs) a h = rw (take-suc n xs a h)

  pub take-update_at : (n : ℕ) (xs : List A) (f : A → A) → take n (update_at xs n f) ≡ take n xs
  take-update_at zero xs f = refl
  take-update_at (suc n) [] f = refl
  take-update_at (suc n) (x ∷ xs) f = rw (take-update_at n xs f)

  pub get_elem?_lt : (n : ℕ) (xs : List A) → n < length xs → (a : A) × (get_elem? xs n ≡ some a)
  get_elem?_lt n [] h = elim h [ ]
  get_elem?_lt zero (x ∷ xs) h = (x, refl)
  get_elem?_lt (suc n) (x ∷ xs) h = get_elem?_lt n xs (omega arith)

  pub length-append : (xs ys : List A) → length (xs ++ ys) ≡ length xs + length ys
  length-append [] ys = omega arith
  length-append (x ∷ xs) ys = omega (arith, length-append xs ys)

  pub length-update_at : (xs : List A) (i : ℕ) (f : A → A) → length (update_at xs i f) ≡ length xs
  length-update_at [] i f = refl
  length-update_at (x ∷ xs) zero f = refl
  length-update_at (x ∷ xs) (suc i) f = omega (arith, length-update_at xs i f)

  pub any-append : (p : A → Bool) (xs ys : List A) → any p (xs ++ ys) ≡ (any p xs || any p ys)
  any-append p [] ys = refl
  any-append p (x ∷ xs) ys = ground (arith, any-append p xs ys)

-- Membership that can be matched.
module _ {A : Type 0} where
  abbrev pub In : A → List A → Type 0
  In a [] = ⊥
  In a (x ∷ xs) = (a ≡ x) ⊎ In a xs

  pub In-append : (a : A) (xs ys : List A) → In a (xs ++ ys) ↔ (In a xs ⊎ In a ys)
  In-append a [] ys = (inr, elim [ inl e ↦ absurd e | inr h ↦ h ])
  In-append a (x ∷ xs) ys =
      let ih = In-append a xs ys in
      (
        elim [
          | inl e ↦ inl (inl e)
          | inr h ↦ elim (ih.0 h) [ inl l ↦ inl (inr l) | inr r ↦ inr r ]
        ],
        elim [
          | inl h ↦ elim h [ inl e ↦ inl e | inr l ↦ inr (ih.1 (inl l)) ]
          | inr r ↦ inr (ih.1 (inr r))
        ],
      )

  pub any-eq-true :
      (p : A → Bool) (xs : List A) → any p xs ≡ true → (a : A) × In a xs × (p a ≡ true)
  any-eq-true p [] h = cc
  any-eq-true p (x ∷ xs) h = elim (Bool-cases (p x)) [
    | inl e ↦ (x, inl refl, e)
    | inr e ↦ let (a, m, q) = any-eq-true p xs (rw e at h) in (a, inr m, q)
  ]

  pub any_of_In : (p : A → Bool) (xs : List A) (a : A) → In a xs → p a ≡ true → any p xs ≡ true
  any_of_In p [] a m h = elim m [ ]
  any_of_In p (x ∷ xs) a (inl e) h = ground arith
  any_of_In p (x ∷ xs) a (inr m) h = ground (arith, any_of_In p xs a m h)

  pub every_of_In : (p : A → Bool) (xs : List A) (a : A) → every p xs ≡ true → In a xs → p a ≡ true
  every_of_In p [] a h m = elim m [ ]
  every_of_In p (x ∷ xs) a h (inl e) = ground arith
  every_of_In p (x ∷ xs) a h (inr m) = every_of_In p xs a (ground arith) m

  pub In-select :
      (p : A → Bool) (xs : List A) (a : A) → In a (select p xs) ↔ (In a xs × (p a ≡ true))
  In-select p [] a = (elim [ ], λ h. h.0)
  In-select p (x ∷ xs) a =
      let ih = In-select p xs a in
      elim (Bool-cases (p x)) [
        | inl e ↦ rw e (
          elim [ inl q ↦ (inl q, rw q e) | inr m ↦ (inr (ih.0 m).0, (ih.0 m).1) ],
          λ (m, h). elim m [ inl q ↦ inl q | inr n ↦ inr (ih.1 (n, h)) ],
        )
        | inr e ↦ rw e (
          λ m. (inr (ih.0 m).0, (ih.0 m).1),
          λ (m, h). elim m [ inl q ↦ cc | inr n ↦ ih.1 (n, h) ],
        )
      ]

pub In-map :
    {A B : Type 0} (f : A → B) (xs : List A) (b : B)
    → In b (map f xs) ↔ ((a : A) × In a xs × (b ≡ f a))
In-map f [] b = (elim [ ], λ h. h.1)
In-map f (x ∷ xs) b =
    let ih = In-map f xs b in
    (
      elim [ inl e ↦ (x, inl refl, e) | inr m ↦ let (a, n, e) = ih.0 m in (a, inr n, e) ],
      λ (a, m, e). elim m [ inl q ↦ inl (rw (← q) e) | inr n ↦ inr (ih.1 (a, n, e)) ],
    )

pub length-map {ℓ κ} :
    {A : Type ℓ} {B : Type κ} (f : A → B) (xs : List A) → length (map f xs) ≡ length xs
length-map f [] = refl
length-map f (x ∷ xs) = omega (arith, length-map f xs)
