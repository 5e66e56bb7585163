-- ===== src/Jwt.antt =====
-- libs/jwt/src/jwt.service.ts: the access and refresh tokens. Nest's `JwtService`, which signs and
-- verifies, is the parameter `Signer`; the time is an argument of its calls.
pub mod Laws
pub mod Memory
mod Tests
use Prim.Native.Char.{Char, code}
use Prim.Native.String as NativeString
use heidi_microservices.Common.{
  ℕ, ◌+◌, ◌-◌, ◌*◌, Bool, true, false, ◌&&◌, Option, none, some, List, map, String, truthy,
  is_space, leb, ◌==◌, if◌then◌else◌,
}
use heidi_microservices.Common.Decimals.{is_digit, digits_onto}
use heidi_microservices.Common.Outcome.{Outcome, returned, thrown, unauthorized, failure, ◌>>=◌}
use heidi_microservices.Rbac.Roles.{RoleClaim, number, text, role_to_number}

pub record CityAssignment : Type 0 where
  pub city_id : String
  pub role : RoleClaim
  pub can_manage_admins : Bool

pub data TokenKind : Type 0 where
  access refresh : TokenKind

-- A field that is absent is `none`; `is_guest` is absent or true.
pub record TokenPayload : Type 0 where
  pub sub : String
  pub email : Option String
  pub role : ℕ
  pub type : TokenKind
  pub is_guest : Bool
  pub device_id : Option String
  pub city_id : Option String
  pub city_ids : Option (List String)
  pub selected_city_id : Option String
  pub city_assignments : Option (List CityAssignment)
  pub permissions : Option (List String)

pub record TokenOptions : Type 0 where
  pub is_guest : Bool
  pub device_id : Option String
  pub city_id : Option String
  pub city_ids : Option (List String)
  pub selected_city_id : Option String
  pub city_assignments : Option (List CityAssignment)
  pub permissions : Option (List String)

-- `parseInt(s, 10)`: not a number, or a whole number with its sign.
pub data Parsed : Type 0 where
  nan : Parsed
  whole negative : ℕ → Parsed

pub record TokenPair : Type 0 where
  pub access_token : String
  pub refresh_token : String
  pub expires_in : Parsed

-- `sign` and `verify`, with the secret and the time; `none` is an exception.
pub record Signer : Type 0 where
  pub sign : String → String → TokenPayload → ℕ → Option String
  pub verify : String → String → ℕ → Option TokenPayload

pub record JwtConfig : Type 0 where
  pub access_secret : String
  pub refresh_secret : String
  pub access_expiry : String
  pub refresh_expiry : String

-- The digits of `parseInt`, of which there must be one.
digits_of : String → Option ℕ
digits_of NativeString.[] = none
digits_of (NativeString.◌∷◌ c s) = if is_digit c then some (digits_onto (code c - 48) s) else none

abbrev whole_or_nan : Option ℕ → Parsed
whole_or_nan none = nan
whole_or_nan (some n) = whole n

abbrev negative_or_nan : Option ℕ → Parsed
negative_or_nan none = nan
negative_or_nan (some n) = negative n

-- `parseInt(s, 10)`
parse_int : String → Parsed
unfolding digits_of
parse_int NativeString.[] = nan
parse_int (NativeString.◌∷◌ c s) =
    let rest = parse_int s in
    if is_space (code c)
    then rest
    else if code c == b'-'
    then negative_or_nan (digits_of s)
    else if code c == b'+'
    then whole_or_nan (digits_of s)
    else whole_or_nan (digits_of (NativeString.◌∷◌ c s))

abbrev times : ℕ → Parsed → Parsed
times k nan = nan
times k (whole n) = whole (n * k)
times k (negative n) = negative (n * k)

-- `expiry.slice(-1)` and `expiry.slice(0, -1)`
last_char : String → Option ℕ
last_char NativeString.[] = none
last_char (NativeString.◌∷◌ c NativeString.[]) = some (code c)
last_char (NativeString.◌∷◌ c (NativeString.◌∷◌ d s)) = last_char (NativeString.◌∷◌ d s)

drop_last : String → String
drop_last NativeString.[] = ""
drop_last (NativeString.◌∷◌ c NativeString.[]) = ""
drop_last (NativeString.◌∷◌ c (NativeString.◌∷◌ d s)) =
    NativeString.◌∷◌ c (drop_last (NativeString.◌∷◌ d s))

-- The `switch` on the unit.
in_seconds : Parsed → Option ℕ → Parsed
in_seconds value none = whole 900
in_seconds value (some unit) =
    if unit == b's'
    then value
    else if unit == b'm'
    then times 60 value
    else if unit == b'h'
    then times 3600 value
    else if unit == b'd'
    then times 86400 value
    else whole 900

pub parse_expiry_to_seconds : String → Parsed
unfolding in_seconds last_char drop_last parse_int
parse_expiry_to_seconds expiry = in_seconds (parse_int (drop_last expiry)) (last_char expiry)

-- `typeof role === 'string' ? roleToNumber(role) : role`
unfoldable pub claim_number : RoleClaim → ℕ
claim_number (number n) = n
claim_number (text s) = role_to_number s

abbrev numbered : CityAssignment → CityAssignment
numbered a = record a { role = number (claim_number a.role) }

abbrev numbered_all : Option (List CityAssignment) → Option (List CityAssignment)
numbered_all none = none
numbered_all (some xs) = some (map numbered xs)

-- A spread of `x && { field: x }`: an empty text is left out.
abbrev pub present : Option String → Option String
present field = if truthy field then field else none

unfoldable pub token_payload :
    TokenKind → String → Option String → RoleClaim → TokenOptions → TokenPayload
token_payload kind user email role options = record {
  sub = user;
  email = present email;
  role = claim_number role;
  type = kind;
  is_guest = options.is_guest;
  device_id = present options.device_id;
  city_id = present options.city_id;
  city_ids = options.city_ids;
  selected_city_id = present options.selected_city_id;
  city_assignments = numbered_all options.city_assignments;
  permissions = options.permissions;
}

abbrev signed : Option String → Outcome String
signed none = thrown (failure "sign")
signed (some t) = returned t

abbrev is_access : TokenKind → Bool
is_access access = true
is_access refresh = false

abbrev is_refresh : TokenKind → Bool
is_refresh refresh = true
is_refresh access = false

module _ (signer : Signer) (config : JwtConfig) where
  unfoldable pub generate_access_token :
      String → Option String → RoleClaim → TokenOptions → ℕ → Outcome String
  generate_access_token user email role options now = signed (
      signer.sign config.access_secret config.access_expiry
        (token_payload access user email role options) now)

  unfoldable pub generate_refresh_token :
      String → Option String → RoleClaim → TokenOptions → ℕ → Outcome String
  generate_refresh_token user email role options now = signed (
      signer.sign config.refresh_secret config.refresh_expiry
        (token_payload refresh user email role options) now)

  unfoldable pub generate_token_pair :
      String → Option String → RoleClaim → TokenOptions → ℕ → Outcome TokenPair
  generate_token_pair user email role options now = do
    a ← generate_access_token user email role options now
    r ← generate_refresh_token user email role options now
    returned (record {
      access_token = a;
      refresh_token = r;
      expires_in = parse_expiry_to_seconds config.access_expiry;
    })

  -- The `try` of `verifyAccessToken`, whose exceptions all become one.
  accept_access : Option TokenPayload → Outcome TokenPayload
  accept_access none = thrown (unauthorized "Invalid or expired token")
  accept_access (some payload) =
      if is_access payload.type
      then returned payload
      else thrown (unauthorized "Invalid or expired token")

  pub verify_access_token : String → ℕ → Outcome TokenPayload
  verify_access_token token now = accept_access (signer.verify config.access_secret token now)

  unfoldable pub accept_refresh : Option TokenPayload → Outcome TokenPayload
  accept_refresh none = thrown (unauthorized "Invalid or expired refresh token")
  accept_refresh (some payload) =
      if is_refresh payload.type
      then returned payload
      else thrown (unauthorized "Invalid or expired refresh token")

  unfoldable pub verify_refresh_token : String → ℕ → Outcome TokenPayload
  verify_refresh_token token now = accept_refresh (signer.verify config.refresh_secret token now)
