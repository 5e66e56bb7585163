-- ===== src/Paging/Joined.antt =====
-- The bounds of a page, and what all the pages hold together.
use heidi_microservices.Common.{
  ℕ, zero, suc, ◌+◌, ◌-◌, ◌*◌, ◌/◌, ◌≤◌, ◌<◌, ◌≡◌, refl, sym, ◌∙◌, Option, none, some, List, [],
  ◌∷◌, ◌++◌, length, take, leb, either, arith,
}
use native.Mathlib.Nat.{div-add-mod, mod-lt}
use heidi_microservices.Paging.{positive_or, page_size, pages_of, drop, page_rows}

module _ {ℓ} {A : Type ℓ} where
  take-nil : (n : ℕ) → take {A = A} n [] ≡ []
  take-nil zero = refl
  take-nil (suc n) = refl

  length-take_le : (n : ℕ) (xs : List A) → length (take n xs) ≤ n
  length-take_le zero xs = omega arith
  length-take_le (suc n) [] = omega arith
  length-take_le (suc n) (x ∷ xs) = omega (arith, length-take_le n xs)

  take_all : (n : ℕ) (xs : List A) → length xs ≤ n → take n xs ≡ xs
  take_all zero [] h = refl
  take_all zero (x ∷ xs) h = absurd (omega (arith, h))
  take_all (suc n) [] h = refl
  take_all (suc n) (x ∷ xs) h = rw (take_all n xs (omega (arith, h)))

  take-add : (n m : ℕ) (xs : List A) → take (n + m) xs ≡ take n xs ++ take m (drop n xs)
  take-add zero m xs = let e : 0 + m ≡ m = omega arith in rw e
  take-add (suc n) m [] = take-nil (suc n + m) ∙ sym (take-nil m)
  take-add (suc n) m (x ∷ xs) =
      let e : suc n + m ≡ suc (n + m) = omega arith in rw (e, take-add n m xs)

  drop-nil : (n : ℕ) → drop {A = A} n [] ≡ []
  drop-nil zero = refl
  drop-nil (suc n) = refl

  drop-add : (n m : ℕ) (xs : List A) → drop (n + m) xs ≡ drop m (drop n xs)
  drop-add zero m xs = let e : 0 + m ≡ m = omega arith in rw e
  drop-add (suc n) m [] = drop-nil (suc n + m) ∙ sym (drop-nil m)
  drop-add (suc n) m (x ∷ xs) =
      let e : suc n + m ≡ suc (n + m) = omega arith in rw e (drop-add n m xs)

  -- `count` pages of a size, from the one after `skipped` others, one after the other.
  abbrev pub joined : (ℕ → List A) → ℕ → ℕ → List A
  joined page skipped zero = []
  joined page skipped (suc count) = page (suc skipped) ++ joined page (suc skipped) count

  joined_lem :
      (size : ℕ) (xs : List A) (page : ℕ → List A)
      → ((n : ℕ) → page (suc n) ≡ take size (drop (n * size) xs))
      → (count skipped : ℕ)
      → joined page skipped count ≡ take (count * size) (drop (skipped * size) xs)
  joined_lem size xs page h zero skipped = let e : 0 * size ≡ 0 = omega arith in rw e
  joined_lem size xs page h (suc count) skipped =
      let further : drop (suc skipped * size) xs ≡ drop size (drop (skipped * size) xs) =
        let e : suc skipped * size ≡ skipped * size + size = omega arith in
        rw e (drop-add (skipped * size) size xs) in
      let e : suc count * size ≡ size + count * size = omega arith in
      rw (h skipped, joined_lem size xs page h count (suc skipped), further, e)
        (sym (take-add size (count * size) (drop (skipped * size) xs)))

pages_of_lem : (total size : ℕ) → 0 < size → total ≤ pages_of total size * size
pages_of_lem total size h =
    let q = (total + (size - 1)) / size in
    let equation = div-add-mod (total + (size - 1)) size in
    let small = mod-lt (total + (size - 1)) h in
    let enough : total ≤ q * size = omega (arith, equation, small, h) in
    either (λ pages. total ≤ pages * size) (leb 1 q) (λ _. enough)
      (λ b.
        let none_at_all : q ≡ 0 = ground (arith, b) in
        let nothing : total ≤ 0 * size = rw none_at_all at enough in omega (arith, nothing))

positive_or-lem : (d : ℕ) (o : Option ℕ) → 0 < d → 0 < positive_or d o
positive_or-lem d none h = h
positive_or-lem d (some zero) h = h
positive_or-lem d (some (suc n)) h = omega arith

page_size_pos : (size : Option ℕ) → (0 < page_size size) × (page_size size ≤ 100)
page_size_pos size =
    let p = positive_or-lem 20 size (omega arith) in
    either (λ n. (0 < n) × (n ≤ 100)) (leb (positive_or 20 size) 100) (λ b. (p, ground (arith, b)))
      (λ b. (omega arith, omega arith))

pages_of_pos : (total size : ℕ) → 1 ≤ pages_of total size
pages_of_pos total size =
    either (λ n. 1 ≤ n) (leb 1 ((total + (size - 1)) / size)) (λ b. ground (arith, b))
      (λ b. omega arith)

-- What an answer says of itself: its page, size, items, total and number of pages.
pub record IsBounded (page size items total pages : ℕ) : Type 0 where
  pub from_one : 1 ≤ page
  pub some_item : 1 ≤ size
  pub limit : size ≤ 100
  pub fits : items ≤ size
  pub some_page : 1 ≤ pages
  pub enough_pages : total ≤ pages * size

module _ {ℓ} {A : Type ℓ} where
  pub page_rows-IsBounded :
      (page size : Option ℕ) (rows : List A) (total : ℕ)
      → IsBounded
          (positive_or 1 page)
          (page_size size)
          (length (page_rows page size rows))
          total
          (pages_of total (page_size size))
  page_rows-IsBounded page size rows total =
      let (some_item, limit) = page_size_pos size in
      record {
        from_one = positive_or-lem 1 page (omega arith);
        some_item = some_item;
        limit = limit;
        fits =
            length-take_le (page_size size) (drop ((positive_or 1 page - 1) * page_size size) rows);
        some_page = pages_of_pos total (page_size size);
        enough_pages = pages_of_lem total (page_size size) some_item;
      }

  -- All the pages, one after the other, are all the rows.
  pub joined-page_rows :
      (size : Option ℕ) (rows : List A) (page : ℕ → List A) (total : ℕ)
      → ((n : ℕ) → page (suc n) ≡ page_rows (some (suc n)) size rows)
      → length rows ≡ total
      → joined page 0 (pages_of total (page_size size)) ≡ rows
  joined-page_rows size rows page total h same =
      let width = page_size size in
      let nth : (n : ℕ) → page (suc n) ≡ take width (drop (n * width) rows) =
        λ n. let e : suc n - 1 ≡ n = omega arith in h n ∙ rw e in
      let long_enough : length rows ≤ pages_of total width * width =
        rw same (pages_of_lem total width (page_size_pos size).0) in
      let none_before : 0 * width ≡ 0 = omega arith in
      joined_lem width rows page nth (pages_of total width) 0
      ∙ rw none_before (take_all (pages_of total width * width) rows long_enough)
