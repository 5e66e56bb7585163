-- ===== src/Categories/Offers.antt =====
-- apps/core/src/modules/categories/categories.service.ts: which categories a town offers after a request
-- is handled.
use heidi_microservices.Common.{
  ℕ, ◌≡◌, refl, sym, ap, ◌∙◌, inl, inr, Bool, true, false, ◌&&◌, ◌||◌, Option, none, some, List, [],
  ◌∷◌, ◌++◌, String, str_eq, any, any-append, Bool-cases, eq_iff, arith, if◌then◌else◌,
}
use heidi_microservices.Common.Outcome.{returned, thrown, failure, returned-inj}
use heidi_microservices.Common.Action.{Action, pure, bind_returned}
use heidi_microservices.Categories.{
  CityCategory, RequestStatus, CategoryRequest, CategoryStore, find_row, update_rows, is_mapping,
  reassigned, new_mapping, assigned_rows, has_category, assign_category_to_city, handled, is_rival,
  update_request, offer_if_approved, handle_category_request,
}

abbrev offer : String → String → CityCategory → Bool
offer city category r = is_mapping city category r && r.is_active

-- Whether the town offers the category.
abbrev pub offers : String → String → List CityCategory → Bool
offers city category rows = any (offer city category) rows

abbrev is_same : String → String → String → String → Bool
is_same c k city category = str_eq city c && str_eq category k

same_or_apart :
    (c k city category : String) (r : CityCategory)
    → is_mapping city category r ≡ true
    → is_mapping c k r ≡ is_same c k city category
same_or_apart c k city category r h =
    ground (arith, eq_iff r.city_id city, eq_iff r.category_id category)

module _ (by : String) (now : ℕ) (name : Option String) (c k city category : String) where
  abbrev changed : List CityCategory → List CityCategory
  changed rows = update_rows (is_mapping city category) (reassigned by now name) rows

  offers_apart :
      (rows : List CityCategory)
      → is_same c k city category ≡ false
      → offers c k (changed rows) ≡ offers c k rows
  offers_apart [] h = refl
  offers_apart (r ∷ rows) h = elim (Bool-cases (is_mapping city category r)) [
    | inl e ↦
        let apart = same_or_apart c k city category r e ∙ h in rw (e, apart, offers_apart rows h)
    | inr e ↦ rw (e, offers_apart rows h)
  ]

  offers_same :
      (rows : List CityCategory)
      → is_same c k city category ≡ true
      → any (is_mapping city category) rows ≡ true
      → offers c k (changed rows) ≡ true
  offers_same [] h there = cc
  offers_same (r ∷ rows) h there = elim (Bool-cases (is_mapping city category r)) [
    | inl e ↦ let same = same_or_apart c k city category r e ∙ h in rw (e, same)
    | inr e ↦ rw (e, offers_same rows h (rw e at there)) (ground arith)
  ]

  -- The upsert makes the town offer this category, and changes nothing for others.
  assigned_rows-offers :
      (fresh : String) (rows : List CityCategory)
      → offers c k (assigned_rows fresh now city category by name rows)
        ≡ (if is_same c k city category then true else offers c k rows)
  assigned_rows-offers fresh rows =
      by_cases (any (is_mapping city category) rows) (is_same c k city category) refl refl
    where
      row : CityCategory
      row = new_mapping fresh now city category by name

      by_cases :
          (there same : Bool)
          → any (is_mapping city category) rows ≡ there
          → is_same c k city category ≡ same
          → offers c k (if there then changed rows else rows ++ row ∷ [])
            ≡ (if same then true else offers c k rows)
      by_cases true true e h = offers_same rows h e
      by_cases true false e h = offers_apart rows h
      by_cases false true e h = rw (any-append (offer c k) rows (row ∷ []), h) (ground arith)
      by_cases false false e h = rw (any-append (offer c k) rows (row ∷ []), h) (ground arith)

-- What the approval of a request has done.
pub record IsOffered (id : String) (s t : CategoryStore) : Type 0 where
  pub request : CategoryRequest
  pub found : find_row (λ (q : CategoryRequest). str_eq q.id id) s.requests ≡ some request
  pub offered :
      (c k : String)
      → offers c k t.city_categories ≡ (
          if is_same c k request.city_id request.category_id
          then true
          else offers c k s.city_categories)

module _ (fresh : String) (now : ℕ) (by : String) (notes : Option String) where
  assign_category_to_city-rows :
      (city category : String) (s : CategoryStore)
      → (assign_category_to_city fresh now city category by none s).0 ≡ returned tt
      → (assign_category_to_city fresh now city category by none s).1.city_categories
        ≡ assigned_rows fresh now city category by none s.city_categories
  unfolding assign_category_to_city
  assign_category_to_city-rows city category s h =
      elim (Bool-cases
        (any (is_mapping city category) s.city_categories || has_category category s)) [
          | inl e ↦ rw e
          | inr e ↦ let k : thrown (failure "P2003") ≡ returned tt = rw e at h in cc
        ]

  updated_request :
      (status : RequestStatus) (s : CategoryStore) (o : Option CategoryRequest)
      (r : CategoryRequest)
      → (update_request status by now notes o s).0 ≡ returned r
      → (q : CategoryRequest) × (o ≡ some q)
        × (r ≡ handled status by now notes q)
        × ((update_request status by now notes o s).1.city_categories ≡ s.city_categories)
  unfolding update_request
  updated_request status s none r h = cc
  updated_request status s (some q) r h = elim (Bool-cases (any (is_rival q status) s.requests)) [
    | inl e ↦ let k : thrown (failure "P2002") ≡ returned r = rw e at h in cc
    | inr e ↦ (q, refl, sym (returned-inj (rw e at h)), rw e)
  ]

  -- The approval of a request returns only if the request exists; from then on its town offers its
  -- category, and other towns and categories are as before.
  pub handle_category_request-IsOffered :
      (id : String) (s : CategoryStore) (r : CategoryRequest)
      → (handle_category_request fresh now id RequestStatus.approved by notes s).0 ≡ returned r
      → IsOffered id s (handle_category_request fresh now id RequestStatus.approved by notes s).1
  unfolding handle_category_request offer_if_approved
  handle_category_request-IsOffered id s r h =
      let find : CategoryStore → Option CategoryRequest =
        λ s. find_row (λ (q : CategoryRequest). str_eq q.id id) s.requests in
      let update : Action CategoryStore CategoryRequest =
        λ s. update_request RequestStatus.approved by now notes (find s) s in
      let (a, k, e, g) =
        bind_returned update (offer_if_approved fresh now RequestStatus.approved by) s h in
      let (q, there, same, kept) = updated_request RequestStatus.approved s (find s) a k in
      let t = (update s).1 in
      let assign = assign_category_to_city fresh now a.city_id a.category_id by none in
      let (_, done, e2, _) = bind_returned assign (λ _. pure a) t g in
      record {
        request = q;
        found = there;
        offered = λ c k.
            ap (λ x. offers c k x.1.city_categories) (e ∙ e2)
            ∙ (ap (offers c k) (assign_category_to_city-rows a.city_id a.category_id t done)
                ∙ (assigned_rows-offers by now none c k a.city_id a.category_id fresh
                      t.city_categories
                    ∙ (ap
                          (λ (x : CategoryRequest).
                            if is_same c k x.city_id x.category_id
                            then true
                            else offers c k t.city_categories)
                          same
                        ∙ ap
                            (λ rows.
                              if is_same c k q.city_id q.category_id then true else offers c k rows)
                            kept)));
      }
