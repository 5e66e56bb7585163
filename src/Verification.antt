-- ===== src/Verification.antt =====
-- apps/notification/src/modules/verification/verification.service.ts: tokens that verify an e-mail
-- address or a phone number. The table, the strategies and the message bus are parameters; the
-- time, the token and the row's identifier, which are drawn at random, are arguments. Exceptions
-- and answers carry the key of their text, not its translation.
pub mod Invariant
pub mod Use
pub mod Keeps
pub mod Runs
pub mod Delivery
mod Tests
use Prim.Native.Char.{Char, code}
use Prim.Native.String as NativeString
use heidi_microservices.Common.{
  ℕ, suc, ◌+◌, ◌*◌, Bool, true, false, not, ◌&&◌, ◌||◌, Option, none, some, String, str_eq, or_text,
  truthy, is_space, ltb, leb, ◌==◌, or_else, is_some, if◌then◌else◌,
}
use heidi_microservices.Common.Outcome.{
  Outcome, returned, thrown, Exception, bad_request, not_found, unprocessable,
}
use heidi_microservices.Common.Action.{
  Action, ◌>>=◌, ◌>>◌, pure, throw, query, throw_when, continue,
}
use heidi_microservices.Database.{Table}

pub data Status : Type 0 where
  pending verified expired failed cancelled used : Status

abbrev pub is_pending : Status → Bool
is_pending pending = true
is_pending _ = false

abbrev pub is_verified : Status → Bool
is_verified verified = true
is_verified _ = false

abbrev pub is_cancelled : Status → Bool
is_cancelled cancelled = true
is_cancelled _ = false

abbrev pub is_expired : Status → Bool
is_expired expired = true
is_expired _ = false

-- The fields of `metadata` that the service reads and writes; the others it passes on.
pub record Metadata : Type 0 where
  pub preferred_language : Option String
  pub language : Option String
  pub locale : Option String
  pub is_resend : Bool

-- A row of `verification_tokens`; times are milliseconds since the epoch.
pub record Token : Type 0 where
  pub id : String
  pub user_id : String
  pub type : String
  pub channel : String
  pub token : String
  pub identifier : String
  pub expires_at : ℕ
  pub verified_at : Option ℕ
  pub cancelled_at : Option ℕ
  pub attempts : ℕ
  pub max_attempts : ℕ
  pub status : Status
  pub is_used : Bool
  pub metadata : Metadata
  pub created_at : ℕ

-- `IVerificationStrategy`; sending may throw.
pub record Strategy : Type 0 where
  pub validate_identifier : String → Bool
  -- identifier, token, user; the metadata, which only words the message, is left out
  pub send : String → String → String → Outcome (Unit {0})

-- The events that go to RabbitMQ: user, type, identifier.
pub data Event : Type 0 where
  verification_sent verification_verified verification_cancelled : String → String → String → Event

pub record SendDto : Type 0 where
  pub user_id : String
  pub type : String
  pub identifier : String
  pub metadata : Option Metadata

pub record Sent : Type 0 where
  pub id : String
  pub type : String
  pub identifier : String
  pub expires_at : ℕ
  pub message : String

pub record Verified : Type 0 where
  pub type : String
  pub identifier : String
  pub user_id : String
  pub verified_at : ℕ

-- `text.trim() === ''`
is_blank : String → Bool
is_blank NativeString.[] = true
is_blank (NativeString.◌∷◌ c s) = is_space (code c) && is_blank s

abbrev non_blank : Option String → Option String
non_blank none = none
non_blank (some s) = if is_blank s then none else some s

pub resolve_language : Option String → Option Metadata → Option String
unfolding is_blank
resolve_language explicit none = non_blank explicit
resolve_language explicit (some m) =
    or_else_some (non_blank explicit)
      (non_blank (or_text m.preferred_language (or_text m.language m.locale)))
  where
    or_else_some : Option String → Option String → Option String
    or_else_some (some s) _ = some s
    or_else_some none o = o

abbrev empty_metadata : Metadata
empty_metadata = record {
  preferred_language = none;
  language = none;
  locale = none;
  is_resend = false;
}

-- `mergedMetadata`: the given metadata with the language filled in where it has none.
pub merged_metadata : Option String → Option Metadata → Metadata
merged_metadata language given =
    let m = or_else given empty_metadata in
    let effective = resolve_language (resolve_language language given) (some m) in
    if truthy effective
    then record m {
      preferred_language = or_text m.preferred_language effective;
      language = or_text m.language effective;
    }
    else m

-- `TOKEN_EXPIRY_HOURS` in milliseconds; the container's clock is UTC, so that an hour has its length.
abbrev pub token_expiry : ℕ
token_expiry = 24 * 3600000

abbrev pub max_attempts : ℕ
max_attempts = 5

-- The `where` of the pending tokens that a new one replaces.
abbrev pub replaced_by : SendDto → Token → Bool
replaced_by dto r =
    str_eq r.user_id dto.user_id
    && str_eq r.identifier dto.identifier
    && str_eq r.type dto.type
    && is_pending r.status

abbrev pub cancel_row : Token → Token
cancel_row r = record r { status = cancelled }

-- The row that `sendVerification` creates.
pub new_token : String → String → Option String → SendDto → ℕ → Token
new_token id token language dto now = record {
  id = id;
  user_id = dto.user_id;
  type = dto.type;
  channel = dto.type;
  token = token;
  identifier = dto.identifier;
  expires_at = now + token_expiry;
  verified_at = none;
  cancelled_at = none;
  attempts = 0;
  max_attempts = max_attempts;
  status = pending;
  is_used = false;
  metadata = merged_metadata language dto.metadata;
  created_at = now;
}

abbrev pub with_token : String → Token → Bool
with_token token r = str_eq r.token token

abbrev pub with_id : Token → Token → Bool
with_id row r = str_eq r.id row.id

abbrev pub expire_row : Token → Token
expire_row r = record r { status = expired }

abbrev pub fail_row : Token → Token
fail_row r = record r { status = failed }

abbrev pub verify_row : ℕ → Token → Token
verify_row now r = record r {
  status = verified;
  verified_at = some now;
  is_used = true;
  attempts = r.attempts + 1;
}

abbrev pub cancel_row_at : ℕ → Token → Token
cancel_row_at now r = record r { status = cancelled; cancelled_at = some now }

abbrev awaiting : SendDto → Token → Bool
awaiting dto r =
    str_eq r.user_id dto.user_id
    && str_eq r.type dto.type
    && str_eq r.identifier dto.identifier
    && (is_pending r.status || is_expired r.status)

-- A token that still waits stops a second one.
still_valid : Option Token → ℕ → Bool
still_valid none now = false
still_valid (some row) now = is_pending row.status && not (ltb row.expires_at now)

resend_dto : SendDto → SendDto
resend_dto dto = record dto {
  metadata = some (record (or_else dto.metadata empty_metadata) { is_resend = true });
}

-- The answer of `sendVerification`.
abbrev pub sent_answer : Option String → SendDto → Token → Sent
sent_answer language dto row = record {
  id = row.id;
  type = dto.type;
  identifier = dto.identifier;
  expires_at = row.expires_at;
  message =
      if (merged_metadata language dto.metadata).is_resend
      then "success.EMAIL_VERIFICATION_RESENT"
      else "success.EMAIL_VERIFICATION_SENT";
}

-- The answer of `verifyToken`, but for its text.
abbrev pub verified_answer : Token → ℕ → Verified
verified_answer row now = record {
  type = row.type;
  identifier = row.identifier;
  user_id = row.user_id;
  verified_at = now;
}

module _ {S : Type 0} (table : Table S Token) (strategies : String → Option Strategy)
    (emit : Event → S → S) where
  abbrev emitted : Event → Action S (Unit {0})
  emitted e s = (returned tt, emit e s)

  -- The end of `sendVerification`: the message to the user, the event and the answer.
  deliver : Strategy → String → Option String → SendDto → Token → Action S Sent
  deliver strategy token language dto row = do
    query (λ s. strategy.send dto.identifier token dto.user_id)
    emitted (verification_sent dto.user_id dto.type dto.identifier)
    pure (sent_answer language dto row)

  -- `sendVerification` once the strategy is found.
  send_by : Strategy → String → String → Option String → SendDto → ℕ → Action S Sent
  send_by strategy id token language dto now = do
    throw_when (not (strategy.validate_identifier dto.identifier))
        (bad_request "VERIFICATION_INVALID_IDENTIFIER")
    table.update_many (replaced_by dto) cancel_row
    table.create (new_token id token language dto now) >>= deliver strategy token language dto

  dispatch : Option Strategy → String → String → Option String → SendDto → ℕ → Action S Sent
  dispatch none id token language dto now = throw (bad_request "VERIFICATION_UNSUPPORTED_TYPE")
  dispatch (some strategy) id token language dto now = send_by strategy id token language dto now

  pub send_verification : String → String → Option String → SendDto → ℕ → Action S Sent
  send_verification id token language dto now =
      dispatch (strategies dto.type) id token language dto now

  -- `verifyToken` once the row is found.
  verify_found : Token → ℕ → Action S Verified
  verify_found row now =
      if row.is_used || is_verified row.status
      then throw (bad_request "VERIFICATION_TOKEN_USED")
      else if is_cancelled row.status
      then throw (bad_request "VERIFICATION_TOKEN_CANCELLED")
      else if ltb row.expires_at now
      then (table.update (with_id row) expire_row
          >> throw (unprocessable "VERIFICATION_TOKEN_EXPIRED"))
      else if leb row.max_attempts row.attempts
      then (table.update (with_id row) fail_row
          >> throw (unprocessable "VERIFICATION_MAX_ATTEMPTS"))
      else (table.update (with_id row) (verify_row now)
          >> (emitted (verification_verified row.user_id row.type row.identifier)
              >> pure (verified_answer row now)))

  verify_row_or : Option Token → ℕ → Action S Verified
  verify_row_or none now = throw (not_found "VERIFICATION_TOKEN_INVALID")
  verify_row_or (some row) now = verify_found row now

  pub verify_token : String → ℕ → Action S Verified
  verify_token token now =
      query (table.find (with_token token)) >>= λ found. verify_row_or found now

  -- `cancelVerification` once the row is found; the answer is the key of its message.
  cancel_found : Token → ℕ → Action S String
  cancel_found row now =
      if is_verified row.status
      then throw (bad_request "VERIFICATION_CANCEL_VERIFIED")
      else if is_cancelled row.status
      then pure "success.VERIFICATION_ALREADY_CANCELLED"
      else (table.update (with_id row) (cancel_row_at now)
          >> (emitted (verification_cancelled row.user_id row.type row.identifier)
              >> pure "success.VERIFICATION_CANCELLED"))

  cancel_row_or : Option Token → ℕ → Action S String
  cancel_row_or none now = throw (not_found "VERIFICATION_TOKEN_INVALID")
  cancel_row_or (some row) now = cancel_found row now

  pub cancel_verification : String → ℕ → Action S String
  cancel_verification token now =
      query (table.find (with_token token)) >>= λ found. cancel_row_or found now

  pub resend_verification : String → String → Option String → SendDto → ℕ → Action S Sent
  resend_verification id token language dto now = do
    existing ← query (table.find_newest (awaiting dto) Token.created_at)
    throw_when (still_valid existing now) (bad_request "VERIFICATION_ALREADY_SENT")
    send_verification id token language (resend_dto dto) now

  -- The newest verified token of a user for a type, if there is one.
  pub get_verification_status : String → String → Action S (Option Token)
  get_verification_status user type = query (
      table.find_newest (λ r. str_eq r.user_id user && str_eq r.type type && is_verified r.status)
        Token.created_at)
