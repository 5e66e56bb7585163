-- ===== src/Terms/Required.antt =====
-- Which terms a user is asked to accept, and whether that is done.
use heidi_microservices.Common.{
  ℕ, ◌≤◌, ◌≡◌, refl, ◌⊎◌, inl, inr, ◌↔◌, true, false, Option, none, some, String, arith, eq_iff, In,
  Bool-cases, truthy,
}
use heidi_microservices.Common.Outcome.{Outcome, returned, thrown, unfinished, not_found, ◌>>=◌}
use heidi_microservices.Database.{Table, IsTable}
use heidi_microservices.Terms.{
  Terms, UserTermsAcceptance, AcceptanceCheck, target_locale, latest_for, accepted_by, found_or,
  no_latest,
}
use heidi_microservices.Terms.Queries.{
  newest, general_terms, get_latest_terms, latest_or_null, check_found, check_latest,
  has_user_accepted_latest_terms,
}
use heidi_microservices.Terms.Latest.{same_city_iff}

module _ {S : Type 0} (terms : Table S Terms) (acceptances : Table S UserTermsAcceptance)
    (default_locale : String) (laws : IsTable terms) where
  -- The terms are the newest active ones that are marked as latest for the locale and the city.
  pub record IsNewest (s : S) (locale : String) (city : Option String) (t : Terms) : Type 0 where
    pub member : In t (terms.rows s)
    pub active : t.is_active ≡ true
    pub latest : t.is_latest ≡ true
    pub locale_of : t.locale ≡ locale
    pub city_of : t.city_id ≡ city
    pub newest_of :
        (q : Terms)
        → In q (terms.rows s)
        → latest_for locale city q ≡ true
        → q.created_at ≤ t.created_at

  split_latest :
      (locale : String) (city : Option String) (t : Terms)
      → latest_for locale city t ≡ true
      → (t.is_active ≡ true) × (t.is_latest ≡ true) × (t.locale ≡ locale) × (t.city_id ≡ city)
  split_latest locale city t h = (
    ground arith,
    ground arith,
    (eq_iff t.locale locale).0 (ground arith),
    (same_city_iff t.city_id city).0 (ground arith),
  )

  found_IsNewest :
      (s : S) (locale : String) (city : Option String) (t : Terms)
      → newest terms acceptances default_locale locale city s ≡ returned (some t)
      → IsNewest s locale city t
  unfolding newest
  found_IsNewest s locale city t h =
      let (m, p, n) = laws.newest_some (latest_for locale city) Terms.created_at s t h in
      let (a, l, e, c) = split_latest locale city t p in
      record { member = m; active = a; latest = l; locale_of = e; city_of = c; newest_of = n }

  -- There are no active terms marked as latest for the locale and the city.
  abbrev pub NoneFor : S → String → Option String → Type 0
  NoneFor s locale city = (q : Terms) → In q (terms.rows s) → latest_for locale city q ≡ false

  -- What a query for the newest terms, with another way on if there are none, returns.
  newest_or :
      (s : S) (locale : String) (city : Option String) (rest : Outcome Terms) (t : Terms)
      → (newest terms acceptances default_locale locale city s >>= found_or rest) ≡ returned t
      → IsNewest s locale city t ⊎ (NoneFor s locale city × (rest ≡ returned t))
  unfolding newest
  newest_or s locale city rest t =
      go (terms.find_newest (latest_for locale city) Terms.created_at s) refl
    where
      go :
          (o : Outcome (Option Terms))
          → terms.find_newest (latest_for locale city) Terms.created_at s ≡ o
          → (o >>= found_or rest) ≡ returned t
          → IsNewest s locale city t ⊎ (NoneFor s locale city × (rest ≡ returned t))
      go (returned none) e h =
          inr (laws.newest_none (latest_for locale city) Terms.created_at s e, h)
      go (returned (some q)) e h = inl (found_IsNewest s locale city t (cc))
      go (thrown x) e h = cc
      go unfinished e h = cc

  general_IsNewest :
      (target : String) (s : S) (t : Terms)
      → general_terms terms acceptances default_locale target s ≡ returned t
      → IsNewest s target none t
  unfolding general_terms
  general_IsNewest target s t h =
      elim (newest_or s target none (thrown (not_found (no_latest target))) t h) [
        | inl n ↦ n
        | inr (_, e) ↦ cc
      ]

  -- The latest terms that are returned are active, marked as latest, in the locale that is asked
  -- for, or the default one, and the newest of these: those of the city, if a city is given and
  -- has some, and otherwise general ones.
  pub get_latest_terms_lem :
      (locale city : Option String) (s : S) (t : Terms)
      → get_latest_terms terms acceptances default_locale locale city s ≡ returned t
      → ((truthy city ≡ true) × IsNewest s (target_locale default_locale locale) city t)
        ⊎ (((truthy city ≡ true) → NoneFor s (target_locale default_locale locale) city)
            × IsNewest s (target_locale default_locale locale) none t)
  unfolding get_latest_terms
  get_latest_terms_lem locale city s t h =
      let target = target_locale default_locale locale in
      let general = general_terms terms acceptances default_locale target s in
      elim (Bool-cases (truthy city)) [
        | inl c ↦ elim (newest_or s target city general t (rw c at h)) [
          | inl n ↦ inl (c, n)
          | inr (missing, e) ↦ inr (λ _. missing, general_IsNewest target s t e)
        ]
        | inr c ↦ inr (λ d. cc, general_IsNewest target s t (rw c at h))
      ]

  module _ (accepted_laws : IsTable acceptances) where
    -- The user has accepted the terms.
    abbrev pub HasAccepted : S → String → String → Type 0
    HasAccepted s user id =
        (a : UserTermsAcceptance) × In a (acceptances.rows s)
        × (a.user_id ≡ user)
        × (a.terms_id ≡ id)

    pub accepted_by_iff :
        (user id : String) (a : UserTermsAcceptance)
        → (accepted_by user id a ≡ true) ↔ ((a.user_id ≡ user) × (a.terms_id ≡ id))
    accepted_by_iff user id a = (
      λ h. ((eq_iff a.user_id user).0 (ground arith), (eq_iff a.terms_id id).0 (ground arith)),
      λ (u, i). rw ((eq_iff a.user_id user).1 u, (eq_iff a.terms_id id).1 i),
    )

    -- While the latest terms are found and the acceptances can be read, the check says that the
    -- user has accepted exactly if an acceptance of those terms by the user is stored, and names
    -- those terms.
    pub has_user_accepted_latest_terms_iff :
        (user : String) (locale city : Option String) (now : ℕ) (s : S) (t : Terms)
        (found : Option UserTermsAcceptance)
        → get_latest_terms terms acceptances default_locale
            (some (target_locale default_locale locale))
            city
            s
          ≡ returned t
        → acceptances.find (accepted_by user t.id) s ≡ returned found
        → (check : AcceptanceCheck) × (has_user_accepted_latest_terms terms acceptances
              default_locale user locale city now s
            ≡ returned check)
          × (check.terms_id ≡ some t.id)
          × ((check.has_accepted ≡ true) ↔ HasAccepted s user t.id)
    unfolding has_user_accepted_latest_terms latest_or_null check_latest check_found
    has_user_accepted_latest_terms_iff user locale city now s t none l f = (
      check_found terms acceptances default_locale now t none,
      rw (l, f),
      refl,
      (
        λ h. cc,
        λ (a, m, u, i).
            let h = accepted_laws.find_none (accepted_by user t.id) s f a m in
            let k = (accepted_by_iff user t.id a).1 (u, i) in cc,
      ),
    )
    has_user_accepted_latest_terms_iff user locale city now s t (some a) l f =
        let (m, h) = accepted_laws.find_some (accepted_by user t.id) s a f in
        (
          check_found terms acceptances default_locale now t (some a),
          rw (l, f),
          refl,
          (λ _. let (u, i) = (accepted_by_iff user t.id a).0 h in (a, m, u, i), λ _. refl),
        )
