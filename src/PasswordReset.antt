-- ===== src/PasswordReset.antt =====
-- apps/notification/src/modules/password-reset/password-reset.service.ts, and `requestPasswordReset`
-- and `resetPassword` of apps/users/src/modules/users/users.service.ts, which asks it. A table is the
-- list of its rows. The message that a token is used is sent without waiting for an answer: it stays in
-- `marks` until it is handled.
pub mod Once
mod Tests
use heidi_microservices.Common.{
  ℕ, suc, ◌+◌, ◌*◌, Bool, true, false, ◌&&◌, ◌||◌, Option, none, some, List, [], ◌∷◌, ◌++◌, map,
  String, str_eq, any, ltb, leb, if◌then◌else◌,
}
use heidi_microservices.Common.Outcome.{
  Outcome, returned, thrown, unfinished, failure, not_found, bad_request, unprocessable,
}
use heidi_microservices.Common.Action.{Action, ◌>>=◌, ◌>>◌, pure, throw, query, continue}
use heidi_microservices.Database.{find_row, update_rows}

pub data ResetStatus : Type 0 where
  pending used expired cancelled failed : ResetStatus

pub record ResetToken : Type 0 where
  pub id : String
  pub user_id : String
  pub token : String
  pub email : String
  pub expires_at : ℕ
  pub used_at : Option ℕ
  pub attempts : ℕ
  pub max_attempts : ℕ
  pub status : ResetStatus
  pub is_used : Bool

pub record Account : Type 0 where
  pub id : String
  pub email : Option String
  pub password : Option String

pub record ResetRequest : Type 0 where
  pub user_id : String
  pub email : String

pub record ResetStore : Type 0 where
  pub tokens : List ResetToken
  pub accounts : List Account
  pub requests : List ResetRequest
  pub marks : List String

abbrev pub is_pending : ResetStatus → Bool
is_pending ResetStatus.pending = true
is_pending _ = false

abbrev pub is_used_status : ResetStatus → Bool
is_used_status ResetStatus.used = true
is_used_status _ = false

abbrev pub is_cancelled : ResetStatus → Bool
is_cancelled ResetStatus.cancelled = true
is_cancelled _ = false

abbrev pub has_token : String → ResetToken → Bool
has_token token r = str_eq r.token token

abbrev with_status : ResetStatus → ResetToken → ResetToken
with_status status r = record r { status = status }

-- The pending tokens of the user for the address.
abbrev is_earlier : String → String → ResetToken → Bool
is_earlier user email r = str_eq r.user_id user && (str_eq r.email email && is_pending r.status)

-- `TOKEN_EXPIRY_HOURS` and `MAX_ATTEMPTS`
pub record ResetConfig : Type 0 where
  pub expiry_hours : ℕ
  pub max_attempts : ℕ

abbrev new_token_row : ResetConfig → String → String → String → String → ℕ → ResetToken
new_token_row config id token email user now = record {
  id = id;
  user_id = user;
  token = token;
  email = email;
  expires_at = now + config.expiry_hours * 3600000;
  used_at = none;
  attempts = 0;
  max_attempts = config.max_attempts;
  status = ResetStatus.pending;
  is_used = false;
}

unfoldable pub cancel_earlier : String → String → Action ResetStore (Unit {0})
cancel_earlier user email s = (
  returned tt,
  record s {
    tokens = update_rows (is_earlier user email) (with_status ResetStatus.cancelled) s.tokens;
  },
)

unfoldable pub create_token : ResetToken → Action ResetStore ResetToken
create_token row s =
    if any (has_token row.token) s.tokens
    then (thrown (failure "P2002"), s)
    else (returned row, record s { tokens = s.tokens ++ row ∷ [] })

-- `deliver` is how the mail goes out.
unfoldable pub send_password_reset_email :
    ResetConfig
    → (ResetToken → Outcome (Unit {0}))
    → String
    → String
    → ℕ
    → String
    → String
    → Action ResetStore ResetToken
send_password_reset_email config deliver id token now email user = do
  cancel_earlier user email
  row ← create_token (new_token_row config id token email user now)
  query (λ s. deliver row)
  pure row

abbrev set_status : String → ResetStatus → ResetStore → ResetStore
set_status id status s = record s {
  tokens = update_rows (λ r. str_eq r.id id) (with_status status) s.tokens;
}

unfoldable pub verify_found_row : ℕ → Option ResetToken → Action ResetStore ResetToken
verify_found_row now none s = (thrown (not_found "PASSWORD_RESET_TOKEN_INVALID"), s)
verify_found_row now (some r) s =
    if r.is_used || is_used_status r.status
    then (thrown (bad_request "PASSWORD_RESET_TOKEN_USED"), s)
    else if is_cancelled r.status
    then (thrown (bad_request "PASSWORD_RESET_TOKEN_CANCELLED"), s)
    else if ltb r.expires_at now
    then (
      thrown (unprocessable "PASSWORD_RESET_TOKEN_EXPIRED"),
      set_status r.id ResetStatus.expired s,
    )
    else if leb r.max_attempts r.attempts
    then (
      thrown (unprocessable "PASSWORD_RESET_MAX_ATTEMPTS"),
      set_status r.id ResetStatus.failed s,
    )
    else (returned r, s)

unfoldable pub verify_reset_token : String → ℕ → Action ResetStore ResetToken
verify_reset_token token now s = verify_found_row now (find_row (has_token token) s.tokens) s

abbrev pub marked_used : ℕ → ResetToken → ResetToken
marked_used now r = record r {
  status = ResetStatus.used;
  used_at = some now;
  is_used = true;
  attempts = suc r.attempts;
}

pub mark_token_as_used : String → ℕ → Action ResetStore (Unit {0})
mark_token_as_used token now s =
    if any (has_token token) s.tokens
    then (
      returned tt,
      record s { tokens = update_rows (has_token token) (marked_used now) s.tokens },
    )
    else (thrown (failure "P2025"), s)

abbrev has_email : String → Account → Bool
has_email email a = elim a.email [ none ↦ false | some mine ↦ str_eq mine email ]

-- The service of users: the same answer whether there is such an account or not.
pub request_password_reset : String → Action ResetStore String
request_password_reset email s = (
  returned "PASSWORD_RESET_IF_EXISTS",
  elim (find_row (has_email email) s.accounts) [
    | none ↦ s
    | some a ↦ record s { requests = s.requests ++ record { user_id = a.id; email = email } ∷ [] }
  ],
)

-- `catch` around the question to the other service.
abbrev pub or_invalid : {A : Type 0} → Outcome A × ResetStore → Outcome A × ResetStore
or_invalid (returned a, s) = (returned a, s)
or_invalid (thrown e, s) = (thrown (bad_request "Invalid or expired password reset token"), s)
or_invalid (unfinished, s) = (unfinished, s)

abbrev pub with_password : String → Account → Account
with_password hashed a = record a { password = some hashed }

unfoldable pub set_password : String → String → ResetToken → Action ResetStore (Unit {0})
set_password hashed token r s =
    if any (λ (a : Account). str_eq a.id r.user_id) s.accounts
    then (
      returned tt,
      record s {
        accounts =
            update_rows (λ (a : Account). str_eq a.id r.user_id) (with_password hashed) s.accounts;
        marks = s.marks ++ token ∷ [];
      },
    )
    else (thrown (failure "P2025"), s)

-- `bcrypt.hash`
unfoldable pub reset_password :
    (String → String) → String → String → ℕ → Action ResetStore (Unit {0})
reset_password hash token new_password now =
    (λ s. or_invalid (verify_reset_token token now s)) >>= set_password (hash new_password) token
