-- ===== src/Verification/Use.antt =====
-- A token verifies once.
use heidi_microservices.Common.{
  ℕ, ◌≡◌, ◌≢◌, refl, sym, ◌∙◌, inl, inr, false, ◌||◌, Option, none, some, List, String, eq_iff, In,
  In-map, either, if◌then◌else◌, ltb, leb,
}
use heidi_microservices.Common.Outcome.{Outcome, returned, thrown, unfinished, Exception}
use heidi_microservices.Common.Action.{Action, continue, throw}
use heidi_microservices.Database.{Table, IsTable, Effect, apply_where}
use heidi_microservices.Verification.{
  Token, Strategy, Event, Verified, is_verified, is_cancelled, with_id, expire_row, fail_row,
  verification_verified, with_token, verify_row, verify_found, verify_row_or, verify_token,
}
use heidi_microservices.Verification.Invariant.{IsSound, IsSpent}

module _ {S : Type 0} (table : Table S Token) (laws : IsTable table)
    (strategies : String → Option Strategy) (emit : Event → S → S)
    (quiet : (e : Event) (s : S) → table.rows (emit e s) ≡ table.rows s) where
  -- What a row must be for its verification to return, and what is then left of it.
  pub record Passed (row : Token) (now : ℕ) (s t : S) : Type 0 where
    pub unused : (row.is_used || is_verified row.status) ≡ false
    pub live : is_cancelled row.status ≡ false
    pub timely : ltb row.expires_at now ≡ false
    pub allowed : leb row.max_attempts row.attempts ≡ false
    pub after : table.rows t ≡ apply_where (with_id row) (verify_row now) (table.rows s)

  -- The update of the row, once it has returned.
  updated :
      {A B : Type 0} (after : List Token) (s : S) (r : Outcome A × S) (f : S → Outcome B × S)
      {v : B}
      → Effect table.rows after s r
      → ((t : S) → table.rows (f t).1 ≡ table.rows t)
      → (continue (λ (_ : A). f) r).0 ≡ returned v
      → table.rows (continue (λ (_ : A). f) r).1 ≡ after
  updated after s (returned a, t) f (inl (_, _, e)) q h = q t ∙ e
  updated after s (returned a, t) f (inr (n, _)) q h = absurd (n a refl)
  updated after s (thrown x, t) f _ q h = cc
  updated after s (unfinished, t) f _ q h = cc

  never :
      {A B : Type 0} (r : Outcome A × S) (e : Exception) {v : B}
      → (continue (λ (_ : A). throw e) r).0 ≢ returned v
  never (returned a, t) e h = cc
  never (thrown x, t) e h = cc
  never (unfinished, t) e h = cc

  verify_found_returned :
      (row : Token) (now : ℕ) (s : S) {v : Verified}
      → (verify_found table strategies emit row now s).0 ≡ returned v
      → Passed row now s (verify_found table strategies emit row now s).1
  unfolding verify_found
  verify_found_returned row now s {v} =
      let P = λ (a : Action S Verified). (a s).0 ≡ returned v → Passed row now s (a s).1 in
      either P (row.is_used || is_verified row.status) (λ _ h. cc)
        λ fresh.
          either P (is_cancelled row.status) (λ _ h. cc)
            λ live.
              either P (ltb row.expires_at now)
                (λ _ h. absurd (never (table.update (with_id row) expire_row s) _ h))
                λ timely.
                  either P (leb row.max_attempts row.attempts)
                    (λ _ h. absurd (never (table.update (with_id row) fail_row s) _ h))
                    λ allowed h. record {
                      unused = fresh;
                      live = live;
                      timely = timely;
                      allowed = allowed;
                      after =
                          updated _ s (table.update (with_id row) (verify_row now) s) _
                            (laws.update_effect (with_id row) (verify_row now) s)
                            (λ t.
                              quiet (verification_verified row.user_id row.type row.identifier) t)
                            h;
                    }

  -- The row whose verification returned.
  pub record Found (token : String) (now : ℕ) (s t : S) : Type 0 where
    pub row : Token
    pub member : In row (table.rows s)
    pub named : row.token ≡ token
    pub passed : Passed row now s t

  find_returned :
      {A : Type 0} (token : String) (k : Option Token → Action S A) (s : S) {v : A}
      → ((k none s).0 ≢ returned v)
      → (continue k (table.find (with_token token) s, s)).0 ≡ returned v
      → (row : Token) × In row (table.rows s)
        × (row.token ≡ token)
        × ((continue k (table.find (with_token token) s, s)) ≡ k (some row) s)
  find_returned token k s {v} missing = go (table.find (with_token token) s) refl
    where
      go :
          (o : Outcome (Option Token))
          → table.find (with_token token) s ≡ o
          → (continue k (o, s)).0 ≡ returned v
          → (row : Token) × In row (table.rows s)
            × (row.token ≡ token)
            × ((continue k (o, s)) ≡ k (some row) s)
      go (returned none) e h = absurd (missing h)
      go (returned (some row)) e h =
          let (m, n) = laws.find_some (with_token token) s row e in
          (row, m, (eq_iff row.token token).0 n, refl)
      go (thrown x) e h = cc
      go unfinished e h = cc

  -- A verification that returns found a row with the token's text in the table that was neither
  -- used, verified nor cancelled, whose time had not run out and that had attempts left, and it
  -- leaves the table with the rows of that row's identifier marked as verified and no other change.
  pub verify_token_returned :
      (token : String) (now : ℕ) (s : S) {v : Verified}
      → (verify_token table strategies emit token now s).0 ≡ returned v
      → Found token now s (verify_token table strategies emit token now s).1
  unfolding verify_token verify_row_or
  verify_token_returned token now s {v} h =
      let (row, m, n, e) =
        find_returned token (λ found. verify_row_or table strategies emit found now) s (λ k. cc)
          h in
      record {
        row = row;
        member = m;
        named = n;
        passed = rw e (verify_found_returned row now s (rw e at h));
      }

  pub verify_token-IsSpent :
      (token : String) (now : ℕ) (s : S) {v : Verified}
      → (verify_token table strategies emit token now s).0 ≡ returned v
      → IsSpent (table.rows (verify_token table strategies emit token now s).1) token
  verify_token-IsSpent token now s h =
      let f = verify_token_returned token now s h in
      let row = f.row in
      (
        verify_row now row,
        rw f.passed.after (
            (In-map (λ r. if with_id row r then verify_row now r else r) (table.rows s) _).1
              (row, f.member, rw ((eq_iff row.id row.id).1 refl))),
        f.named,
        refl,
      )

  -- A token text that is followed as spent does not verify.
  pub verify_token-spent :
      {K : String → Type 0} (token : String) (now : ℕ) (s : S) {v : Verified}
      → IsSound K (table.rows s)
      → K token
      → (verify_token table strategies emit token now s).0 ≢ returned v
  verify_token-spent token now s sound k h =
      let f = verify_token_returned token now s h in
      let (r, m, e, u) = sound.spent token k in
      let same : r ≡ f.row = sound.tokens r f.row m f.member (e ∙ sym f.named) in
      let unused = f.passed.unused in cc
