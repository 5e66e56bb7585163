-- ===== src/PasswordReset/Once.antt =====
-- apps/users/src/modules/users/users.service.ts and
-- apps/notification/src/modules/password-reset/password-reset.service.ts: when a password is reset, and
-- that a token which is marked does not reset it again.
use heidi_microservices.Common.{
  ℕ, ◌≤◌, ◌<◌, ◌≡◌, refl, ap, ◌∙◌, inl, inr, true, false, ◌||◌, Option, none, some, List, [], ◌∷◌,
  ◌++◌, String, str_eq, any, ltb, leb, Bool-cases, arith,
}
use heidi_microservices.Common.Outcome.{
  Outcome, returned, thrown, unfinished, failure, bad_request, unprocessable, returned-inj,
}
use heidi_microservices.Common.Action.{Action, bind_returned}
use heidi_microservices.Database.{find_row, update_rows}
use heidi_microservices.PasswordReset.{
  ResetToken, Account, ResetStore, has_token, is_used_status, is_cancelled, verify_found_row,
  verify_reset_token, marked_used, mark_token_as_used, or_invalid, with_password, set_password,
  reset_password,
}

-- The token may reset a password.
pub record IsGood (now : ℕ) (r : ResetToken) : Type 0 where
  pub unused : (r.is_used || is_used_status r.status) ≡ false
  pub kept : is_cancelled r.status ≡ false
  pub in_time : now ≤ r.expires_at
  pub attempts_left : r.attempts < r.max_attempts

verified :
    (now : ℕ) (o : Option ResetToken) (s : ResetStore) (r : ResetToken)
    → (verify_found_row now o s).0 ≡ returned r
    → (o ≡ some r) × IsGood now r × ((verify_found_row now o s).1 ≡ s)
unfolding verify_found_row
verified now none s r h = cc
verified now (some q) s r h = elim (Bool-cases (q.is_used || is_used_status q.status)) [
  | inl a ↦ let k : thrown (bad_request "PASSWORD_RESET_TOKEN_USED") ≡ returned r = rw a at h in cc
  | inr a ↦ elim (Bool-cases (is_cancelled q.status)) [
    | inl b ↦
        let k : thrown (bad_request "PASSWORD_RESET_TOKEN_CANCELLED") ≡ returned r =
          rw (a, b) at h in
        cc
    | inr b ↦ elim (Bool-cases (ltb q.expires_at now)) [
      | inl c ↦
          let k : thrown (unprocessable "PASSWORD_RESET_TOKEN_EXPIRED") ≡ returned r =
            rw (a, b, c) at h in
          cc
      | inr c ↦ elim (Bool-cases (leb q.max_attempts q.attempts)) [
        | inl d ↦
            let k : thrown (unprocessable "PASSWORD_RESET_MAX_ATTEMPTS") ≡ returned r =
              rw (a, b, c, d) at h in
            cc
        | inr d ↦
            let same : q ≡ r = returned-inj (rw (a, b, c, d) at h) in
            let good : IsGood now q = record {
              unused = a;
              kept = b;
              in_time = ground (arith, c);
              attempts_left = ground (arith, d);
            } in
            (ap some same, rw (← same) good, rw (a, b, c, d))
      ]
    ]
  ]
]

found_marked :
    (token : String) (now : ℕ) (rows : List ResetToken) (r : ResetToken)
    → find_row (has_token token) rows ≡ some r
    → find_row (has_token token) (update_rows (has_token token) (marked_used now) rows)
      ≡ some (marked_used now r)
found_marked token now [] r h = cc
found_marked token now (q ∷ rows) r h = elim (Bool-cases (has_token token q)) [
  | inl e ↦
      let k : some q ≡ some r = rw e at h in
      rw (e, e) (ap (λ o. elim o [ none ↦ none | some x ↦ some (marked_used now x) ]) k)
  | inr e ↦ rw (e, e) (found_marked token now rows r (rw e at h))
]

-- What a reset that returned has done.
pub record IsReset (hash : String → String) (token new_password : String) (now : ℕ)
    (s t : ResetStore) : Type 0 where
  pub row : ResetToken
  pub found : find_row (has_token token) s.tokens ≡ some row
  pub good : IsGood now row
  pub tokens : t.tokens ≡ s.tokens
  pub accounts :
      t.accounts
      ≡ update_rows
          (λ (a : Account). str_eq a.id row.user_id)
          (with_password (hash new_password))
          s.accounts
  pub marks : t.marks ≡ s.marks ++ token ∷ []

or_invalid-eq-returned :
    {A : Type 0} (r : Outcome A × ResetStore) {a : A}
    → (or_invalid r).0 ≡ returned a
    → (or_invalid r ≡ r) × (r.0 ≡ returned a)
or_invalid-eq-returned (returned x, t) h = (refl, h)
or_invalid-eq-returned (thrown e, t) h = cc
or_invalid-eq-returned (unfinished, t) h = cc

password_set :
    (hash : String → String) (token new_password : String) (now : ℕ) (s t : ResetStore)
    (r : ResetToken) {w : Outcome (Unit {0}) × ResetStore}
    → find_row (has_token token) s.tokens ≡ some r
    → IsGood now r
    → t ≡ s
    → w ≡ set_password (hash new_password) token r t
    → (set_password (hash new_password) token r t).0 ≡ returned tt
    → IsReset hash token new_password now s w.1
unfolding set_password
password_set hash token new_password now s t r found good same e h =
    elim (Bool-cases (any (λ (a : Account). str_eq a.id r.user_id) t.accounts)) [
      | inl b ↦ rw e (record {
        row = r;
        found = found;
        good = good;
        tokens = rw (b, same);
        accounts = rw (b, same);
        marks = rw (b, same);
      })
      | inr b ↦ let k : thrown (failure "P2025") ≡ returned tt = rw b at h in cc
    ]

-- `resetPassword` returns only for a token that is known, not used, not cancelled, not expired and has
-- attempts left. It sets the password of the token's user and sends the message that the token is used.
pub reset_password-IsReset :
    (hash : String → String) (token new_password : String) (now : ℕ) (s : ResetStore)
    → (reset_password hash token new_password now s).0 ≡ returned tt
    → IsReset hash token new_password now s (reset_password hash token new_password now s).1
unfolding reset_password verify_reset_token
reset_password-IsReset hash token new_password now s h =
    let ask : Action ResetStore ResetToken = λ s. or_invalid (verify_reset_token token now s) in
    let (r, k, e, g) = bind_returned ask (set_password (hash new_password) token) s h in
    let (same, v) = or_invalid-eq-returned (verify_reset_token token now s) k in
    let (there, good, kept) = verified now (find_row (has_token token) s.tokens) s r v in
    password_set hash token new_password now s (ask s).1 r there good (ap (λ x. x.1) same ∙ kept) e
      g

-- A token that a row marked as used has does not verify.
refused_used :
    (hash : String → String) (token new_password : String) (now later : ℕ) (s : ResetStore)
    (r : ResetToken)
    → find_row (has_token token) s.tokens ≡ some (marked_used later r)
    → reset_password hash token new_password now s
      ≡ (thrown (bad_request "Invalid or expired password reset token"), s)
unfolding reset_password verify_reset_token verify_found_row
refused_used hash token new_password now later s r h = rw h

there_is :
    (token : String) (rows : List ResetToken) (r : ResetToken)
    → find_row (has_token token) rows ≡ some r
    → any (has_token token) rows ≡ true
there_is token [] r h = cc
there_is token (q ∷ rows) r h = elim (Bool-cases (has_token token q)) [
  | inl e ↦ rw e
  | inr e ↦ rw (e, there_is token rows r (rw e at h))
]

marked_row :
    (token : String) (later : ℕ) (t : ResetStore) (r : ResetToken)
    → find_row (has_token token) t.tokens ≡ some r
    → find_row (has_token token) (mark_token_as_used token later t).1.tokens
      ≡ some (marked_used later r)
unfolding mark_token_as_used
marked_row token later t r h =
    rw (there_is token t.tokens r h) (found_marked token later t.tokens r h)

-- Once the message that a token is used has been handled, a token that has reset a password resets none
-- again, at whatever time: the second call changes nothing and is refused.
pub reset_once :
    (hash : String → String) (token first second : String) (now later again : ℕ) (s : ResetStore)
    → (reset_password hash token first now s).0 ≡ returned tt
    → reset_password hash token second again
        (mark_token_as_used token later (reset_password hash token first now s).1).1
      ≡ (
        thrown (bad_request "Invalid or expired password reset token"),
        (mark_token_as_used token later (reset_password hash token first now s).1).1,
      )
reset_once hash token first second now later again s h =
    let done = reset_password-IsReset hash token first now s h in
    let t = (reset_password hash token first now s).1 in
    let there = ap (find_row (has_token token)) done.tokens ∙ done.found in
    refused_used hash token second again later (mark_token_as_used token later t).1 done.row
      (marked_row token later t done.row there)
