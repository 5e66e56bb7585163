-- ===== src/Rbac/Request.antt =====
-- The parts of an HTTP request that the guards read, and the user that the token gives it.
use heidi_microservices.Common.{Option, none, some, String, str_eq, or_text, if◌then◌else◌}
use heidi_microservices.Common.Outcome.{Outcome, returned, thrown, Exception}
use heidi_microservices.Rbac.Roles.{RoleClaim}

-- `request.user`; the token strategy fills both identifiers from the token's subject.
pub record TokenUser : Type 0 where
  pub role : RoleClaim
  pub sub : String
  pub user_id : String
  pub selected_city_id : Option String
  pub city_id : Option String

pub record Request : Type 0 where
  pub user : Option TokenUser
  pub params_city_id : Option String
  pub params_id : Option String
  pub query_city_id : Option String
  pub body_city_id : Option String
  pub accept_language : Option String
  pub query_locale : Option String

-- `user.sub || user.userId`
abbrev pub user_key : TokenUser → String
user_key u = if str_eq u.sub "" then u.user_id else u.sub

-- `request.params?.cityId || request.query?.cityId || request.body?.cityId`
abbrev pub requested_city : Request → Option String
requested_city r = or_text r.params_city_id (or_text r.query_city_id r.body_city_id)

-- `if (!user) throw …`
abbrev pub authenticated : Option TokenUser → Exception → Outcome TokenUser
authenticated none e = thrown e
authenticated (some u) e = returned u
