-- ===== src/Verification/Invariant.antt =====
-- What holds of the table of tokens, whatever the service does.
use heidi_microservices.Common.{
  ℕ, ◌≡◌, ◌≢◌, refl, sym, ◌∙◌, ap, inl, inr, Bool, true, false, ◌||◌, Option, List, [], ◌∷◌, ◌++◌,
  String, arith, In, In-map, In-append, Bool-cases, if◌then◌else◌, leb,
}
use heidi_microservices.Database.{apply_where}
use heidi_microservices.Verification.{
  Status, failed, is_verified, Token, SendDto, cancel_row, new_token, expire_row, verify_row,
  cancel_row_at,
}

abbrev pub is_failed : Status → Bool
is_failed failed = true
is_failed _ = false

-- A token is used exactly if it is verified, one attempt is counted exactly if it is used, it
-- allows five attempts, and it has not failed.
pub record IsOk (r : Token) : Type 0 where
  pub marked : r.is_used ≡ is_verified r.status
  pub counted : r.attempts ≡ (if r.is_used then 1 else 0)
  pub allowed : r.max_attempts ≡ 5
  pub not_failed : is_failed r.status ≡ false

abbrev pub Unique : (Token → String) → List Token → Type 0
Unique key rows = (q r : Token) → In q rows → In r rows → key q ≡ key r → q ≡ r

-- A used token with the given text is in the table.
abbrev pub IsSpent : List Token → String → Type 0
IsSpent rows token = (r : Token) × In r rows × (r.token ≡ token) × (r.is_used ≡ true)

-- Every token is in order, no two share an identifier or a token text, and the token texts `K`,
-- any that one likes to follow, are spent.
pub record IsSound (K : String → Type 0) (rows : List Token) : Type 0 where
  pub each : (r : Token) → In r rows → IsOk r
  pub ids : Unique (λ r. r.id) rows
  pub tokens : Unique (λ r. r.token) rows
  pub spent : (t : String) → K t → IsSpent rows t

module _ (p : Token → Bool) (f : Token → Token) (rows : List Token) where
  abbrev changed : Token → Token
  changed r = if p r then f r else r

  Unique-apply_where :
      (key : Token → String)
      → ((r : Token) → key (f r) ≡ key r)
      → Unique key rows
      → Unique key (apply_where p f rows)
  Unique-apply_where key same u q r m n e =
      let (q', i, a) = (In-map changed rows q).0 m in
      let (r', j, b) = (In-map changed rows r).0 n in
      let keeps : (t : Token) → key (changed t) ≡ key t =
        λ t. elim (Bool-cases (p t)) [ inl h ↦ rw h (same t) | inr h ↦ rw h ] in
      let eq : q' ≡ r' =
        u q' r' i j (sym (keeps q') ∙ (sym (ap key a) ∙ (e ∙ (ap key b ∙ keeps r')))) in
      a ∙ (ap changed eq ∙ sym b)

  IsSpent-apply_where :
      ((r : Token) → (f r).token ≡ r.token)
      → ((r : Token) → r.is_used ≡ true → (f r).is_used ≡ true)
      → (t : String) → IsSpent rows t
      → IsSpent (apply_where p f rows) t
  IsSpent-apply_where same still t (r, m, e, u) = (
    changed r,
    (In-map changed rows (changed r)).1 (r, m, refl),
    elim (Bool-cases (p r)) [ inl h ↦ rw h (same r ∙ e) | inr h ↦ rw h e ],
    elim (Bool-cases (p r)) [ inl h ↦ rw h (still r u) | inr h ↦ rw h u ],
  )

  pub IsSound-apply_where :
      {K : String → Type 0}
      → ((r : Token) → (f r).id ≡ r.id)
      → ((r : Token) → (f r).token ≡ r.token)
      → ((r : Token) → r.is_used ≡ true → (f r).is_used ≡ true)
      → ((r : Token) → In r rows → p r ≡ true → IsOk r → IsOk (f r))
      → IsSound K rows
      → IsSound K (apply_where p f rows)
  IsSound-apply_where same_id same_token still keeps sound = record {
    each = λ q m.
        let (r, i, a) = (In-map changed rows q).0 m in
        rw a (elim (Bool-cases (p r)) [
          | inl h ↦ rw h (keeps r i h (sound.each r i))
          | inr h ↦ rw h (sound.each r i)
        ]);
    ids = Unique-apply_where (λ r. r.id) same_id sound.ids;
    tokens = Unique-apply_where (λ r. r.token) same_token sound.tokens;
    spent = λ t k. IsSpent-apply_where same_token still t (sound.spent t k);
  }

Unique-snoc :
    (key : Token → String) (rows : List Token) (n : Token)
    → ((r : Token) → In r rows → key r ≢ key n)
    → Unique key rows
    → Unique key (rows ++ n ∷ [])
Unique-snoc key rows n fresh u q r i j e = elim ((In-append q rows (n ∷ [])).0 i) [
  | inl a ↦ elim ((In-append r rows (n ∷ [])).0 j) [
    | inl b ↦ u q r a b e
    | inr b ↦ elim b [ inl h ↦ absurd (fresh q a (rw (← h) e)) | inr h ↦ absurd h ]
  ]
  | inr a ↦ elim a [
    | inr h ↦ absurd h
    | inl g ↦ elim ((In-append r rows (n ∷ [])).0 j) [
      | inl b ↦ absurd (fresh r b (rw (← g) (sym e)))
      | inr b ↦ elim b [ inl h ↦ g ∙ sym h | inr h ↦ absurd h ]
    ]
  ]
]

pub IsSound-snoc :
    {K : String → Type 0} (rows : List Token) (n : Token)
    → IsOk n
    → ((r : Token) → In r rows → (r.id ≢ n.id) × (r.token ≢ n.token))
    → IsSound K rows
    → IsSound K (rows ++ n ∷ [])
IsSound-snoc rows n okay fresh sound = record {
  each = λ r m. elim ((In-append r rows (n ∷ [])).0 m) [
    | inl i ↦ sound.each r i
    | inr i ↦ elim i [ inl e ↦ rw e okay | inr e ↦ absurd e ]
  ];
  ids = Unique-snoc (λ r. r.id) rows n (λ r i. (fresh r i).0) sound.ids;
  tokens = Unique-snoc (λ r. r.token) rows n (λ r i. (fresh r i).1) sound.tokens;
  spent =
      λ t k. let (r, m, e, u) = sound.spent t k in (r, (In-append r rows (n ∷ [])).1 (inl m), e, u);
}

-- What each update of a row keeps.
module _ (r : Token) (okay : IsOk r) where
  pub expire_row-IsOk : (r.is_used || is_verified r.status) ≡ false → IsOk (expire_row r)
  expire_row-IsOk h = ground (arith, okay)

  pub verify_row-IsOk :
      (now : ℕ) → (r.is_used || is_verified r.status) ≡ false → IsOk (verify_row now r)
  verify_row-IsOk now h = ground (arith, okay)

  pub cancel_row-IsOk : is_verified r.status ≡ false → IsOk (cancel_row r)
  cancel_row-IsOk h = ground (arith, okay)

  pub cancel_row_at-IsOk : (now : ℕ) → is_verified r.status ≡ false → IsOk (cancel_row_at now r)
  cancel_row_at-IsOk now h = ground (arith, okay)

  -- The limit on attempts is out of reach.
  pub attempts_left : leb r.max_attempts r.attempts ≡ false
  attempts_left = ground (arith, okay)

pub new_token-IsOk :
    (id token : String) (language : Option String) (dto : SendDto) (now : ℕ)
    → IsOk (new_token id token language dto now)
unfolding new_token
new_token-IsOk id token language dto now = record {
  marked = refl;
  counted = refl;
  allowed = refl;
  not_failed = refl;
}
