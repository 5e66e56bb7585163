-- ===== src/Auth/Tests.antt =====
-- The authentication service on a cache and databases in memory, with the accounts of Anna, who is in
-- order, and Emil, who has not verified his address.
use mathlib.Core.Path.{Path}
use mathlib.Core.Bool.{false≢true}
use heidi_microservices.Common.{
  eq_iff, sym, ap, ◌∙◌, inl, inr, Bool-cases, ℕ, ◌≡◌, refl, true, false, Option, none, some, List,
  [], ◌∷◌, String, str_eq, ◌==◌, if◌then◌else◌,
}
use heidi_microservices.Common.Outcome.{returned, forbidden, returned-inj}
use heidi_microservices.Common.Action.{Action}
use heidi_microservices.Database.{Table, IsTable}
use heidi_microservices.Database.Memory as Database
use heidi_microservices.Redis
use heidi_microservices.Redis.Memory as Cache
use heidi_microservices.Rbac.Permissions.{CoreDb, get_user_permissions}
use heidi_microservices.Rbac.Roles.{
  claim_to_number, text, citizen, city_admin, number, claimed_role, number_to_role,
}
use heidi_microservices.Rbac.Cities.{CityDb}
use heidi_microservices.Jwt.{
  JwtConfig, refresh, TokenPair, TokenPayload, parse_expiry_to_seconds, generate_token_pair,
  generate_access_token, generate_refresh_token, token_payload, claim_number, verify_refresh_token,
  accept_refresh,
}
use heidi_microservices.Jwt.Memory as Tokens
use heidi_microservices.Auth.{
  World, User, AuditEntry, Session, Deps, Remote, no_caller, create_audit_log, store_session,
}
use heidi_microservices.Auth.Login.{
  LoginDto, LoginAnswer, login, login_found, login_user, check_password, admit, admit_rest,
}
use heidi_microservices.Auth.TermsInfo.{default_terms_info, check_terms_acceptance, terms_info}
use heidi_microservices.Auth.Tokens.{
  login_tokens, effective_permissions, refreshed_tokens, refreshed_options,
}
use heidi_microservices.Auth.Login.Laws.{Admitted, login-Admitted}
use heidi_microservices.Auth.Login.Refusals.{Refuses, login_refused}
use heidi_microservices.Auth.EffectiveRole.{IsHighest, effective_role, effective_role-IsHighest}
use heidi_microservices.Auth.Refresh.{
  refresh_tokens, refresh_verified, refresh_stored, refresh_user, renew, record_refresh,
}
use heidi_microservices.Auth.Refresh.Renewal.{Refused}
use heidi_microservices.Auth.Refresh.Rotation.{refreshed_once}
use heidi_microservices.Auth.Refresh.AfterLogin.{Responsive, login_then_refreshed}
use heidi_microservices.Auth.Sessions.{logout}
use heidi_microservices.Auth.Sessions.Logout.{logged_out}
use heidi_microservices.Auth.Guests.{ConvertGuestDto, GuestRemote}
use heidi_microservices.Auth.CityAdmin.{
  AssignDto, AssignRequest, assign_city_admin, assign_as, assign_to, requester_role, is_permitted,
  can_grant,
}
use heidi_microservices.Auth.CityAdmin.Authorised.{Assigned, assign_city_admin-Assigned}

abbrev Databases : Type 0
Databases = List Session × List AuditEntry

abbrev sessions : Table Databases Session
sessions = Database.memory (λ (d : Databases). d.0) (λ rs d. (rs, d.1)) (λ rs d. refl)

sessions-IsTable : IsTable sessions
sessions-IsTable =
    Database.memory-IsTable (λ (d : Databases). d.0) (λ rs d. (rs, d.1)) (λ rs d. refl)

abbrev audit : Table Databases AuditEntry
audit = Database.memory (λ (d : Databases). d.1) (λ rs d. (d.0, rs)) (λ rs d. refl)

abbrev anna : User
anna = record {
  id = "anna";
  email = some "anna@example.org";
  email_verified = some true;
  password = some "secret";
  is_active = true;
  role = text "CITIZEN";
  user_type = "REGISTERED";
  device_id = none;
  device_platform = none;
}

abbrev emil : User
emil = record anna { id = "emil"; email = some "emil@example.org"; email_verified = none }

-- The same user as `USER_FIND_BY_ID` sends it.
abbrev by_number : User → User
by_number u = record u { role = number 3 }

abbrev account : String → Option User
account key =
    if str_eq key "anna"
    then some (by_number anna)
    else if str_eq key "emil"
    then some (by_number emil)
    else none

abbrev by_email : String → Option User
by_email key =
    if str_eq key "anna@example.org"
    then some anna
    else if str_eq key "emil@example.org"
    then some emil
    else none

abbrev remote : Remote Databases
remote = record {
  find_by_email = λ email d. returned (by_email email);
  find_by_id = λ id d. returned (account id);
  assignments = λ id d. returned [];
  check_acceptance = λ user city d.
      returned (record { has_accepted = true; terms_id = none; grace_period_ends_at = none });
  get_latest = λ city d. returned none;
  compare = λ given stored. returned (str_eq given "secret");
}

abbrev core : CoreDb
core = record {
  active_assignments = λ user. returned [];
  find_permission = λ resource action role. returned none;
  permissions_of_role = λ role. returned [];
  all_permissions = returned [];
}

abbrev config : JwtConfig
config = record {
  access_secret = "access secret";
  refresh_secret = "refresh secret";
  access_expiry = "15m";
  refresh_expiry = "7d";
}

abbrev State : Type 0
State = World (Cache.Keys String) Databases

abbrev deps : Deps (Cache.Keys String) Databases
deps = record {
  sessions = sessions;
  audit = audit;
  core = core;
  signer = Tokens.memory;
  config = config;
  cache = Cache.memory;
  remote = remote;
}

abbrev start : State
start = record { cache = Cache.no_keys; db = ([], []) }

abbrev as_anna : LoginDto
as_anna = record { email = "anna@example.org"; password = "secret"; remember_me = false }

abbrev anna_tokens : ℕ → TokenPair
anna_tokens now = record {
  access_token = if now == 0 then "A0anna" else "A1anna";
  refresh_token = if now == 0 then "R0anna" else "R1anna";
  expires_in = parse_expiry_to_seconds "15m";
}

abbrev anna_answer : LoginAnswer
anna_answer = record {
  user_id = "anna";
  email = some "anna@example.org";
  role = 3;
  tokens = anna_tokens 0;
  terms = default_terms_info;
}

abbrev logged_in : State
logged_in = (login deps "s1" as_anna no_caller 0 start).1

anna_in : (login deps "s1" as_anna no_caller 0 start).0 ≡ returned anna_answer
unfolding login login_found login_user check_password admit admit_rest create_audit_log
    store_session Redis.set login_tokens effective_permissions get_user_permissions
    generate_token_pair generate_access_token generate_refresh_token token_payload claim_number
    claim_to_number check_terms_acceptance terms_info
anna_in = refl

login-Admitted_example : Admitted deps "s1" as_anna no_caller 0 start
login-Admitted_example = login-Admitted deps "s1" as_anna no_caller 0 start anna_answer anna_in

abbrev as_emil : LoginDto
as_emil = record { email = "emil@example.org"; password = "wrong"; remember_me = false }

-- The address comes before the password.
login_refused_example :
    Refuses deps
      (forbidden "EMAIL_VERIFICATION_REQUIRED")
      start
      (login deps "s2" as_emil no_caller 0 start)
login_refused_example =
    login_refused deps "s2" as_emil no_caller 0 start (some emil) false
      (forbidden "EMAIL_VERIFICATION_REQUIRED") refl (λ u e. refl) (λ entry h. cc) refl

effective_role-IsHighest_example :
    IsHighest
      (some citizen)
      (citizen ∷ city_admin ∷ [])
      (effective_role (some citizen) (citizen ∷ city_admin ∷ []))
effective_role-IsHighest_example =
    effective_role-IsHighest (some citizen) (citizen ∷ city_admin ∷ [])

anna_refreshes : (refresh_tokens deps "s3" "R0anna" 1 logged_in).0 ≡ returned (anna_tokens 1)
unfolding refresh_tokens refresh_verified refresh_stored refresh_user renew record_refresh
    refreshed_tokens refreshed_options effective_permissions verify_refresh_token accept_refresh
    login login_found login_user check_password admit admit_rest create_audit_log store_session
    Redis.set Redis.get login_tokens get_user_permissions generate_token_pair generate_access_token
    generate_refresh_token token_payload claim_number claim_to_number check_terms_acceptance
    terms_info
anna_refreshes = refl

abbrev user_id_of : Option User → String
user_id_of none = ""
user_id_of (some u) = u.id

account_lem : {o : Option User} {u : User} → returned o ≡ returned (some u) → o ≡ some u
account_lem h = returned-inj h

by_identifier :
    (id : String) (u : User) (d : Databases)
    → remote.find_by_id id d ≡ returned (some u)
    → u.id ≡ id
by_identifier id u d h =
    let found : account id ≡ some u = account_lem h in
    elim (Bool-cases (str_eq id "anna")) [
      | inl e ↦ ap user_id_of (sym (rw e at found)) ∙ sym ((eq_iff id "anna").0 e)
      | inr e ↦ elim (Bool-cases (str_eq id "emil")) [
        | inl f ↦ ap user_id_of (sym (rw (e, f) at found)) ∙ sym ((eq_iff id "emil").0 f)
        | inr f ↦ let k : none ≡ some u = rw (e, f) at found in cc
      ]
    ]

new_token : (Path String "R1anna" "R0anna") → ⊥
new_token h = false≢true ((eq_iff "R1anna" "R0anna").1 h)

-- The state after the refresh, with no row left in the databases.
abbrev emptied : State
emptied = record { cache = (refresh_tokens deps "s3" "R0anna" 1 logged_in).1.cache; db = ([], []) }

refreshed_once_example : Refused deps (refresh_tokens deps "s4" "R0anna" 2 emptied).0
refreshed_once_example =
    refreshed_once deps Tokens.memory-IsSigner Cache.memory-IsStore by_identifier "s3" "s4" "R0anna"
      1 2 logged_in emptied (anna_tokens 1) (λ k v n. refl) anna_refreshes new_token (λ p v. refl)

responsive : Responsive deps
responsive = record {
  logs = λ entry d h. cc;
  sessions = λ row d h. cc;
  writes = λ k v n c h. Cache.memory_responsive k v n c h;
}

anna_reads :
    (later : ℕ)
    → verify_refresh_token Tokens.memory config "R0anna" later
      ≡ returned (Tokens.bare_payload refresh "anna")
unfolding verify_refresh_token accept_refresh
anna_reads later = refl

login_then_refreshed_example :
    (refresh_tokens deps "s3" "R0anna" 1 logged_in).0 ≡ returned (anna_tokens 1)
unfolding login login_found login_user check_password admit admit_rest create_audit_log
    store_session Redis.set Redis.get login_tokens get_user_permissions generate_token_pair
    refreshed_tokens refreshed_options effective_permissions generate_access_token
    generate_refresh_token token_payload claim_number claim_to_number check_terms_acceptance
    terms_info
login_then_refreshed_example =
    login_then_refreshed deps responsive Tokens.memory-IsSigner Cache.memory-IsStore "s1" "s3"
      as_anna no_caller 0 1 start anna_answer (Tokens.bare_payload refresh "anna") (by_number anna)
      (anna_tokens 1) (λ k v n. refl) anna_in (anna_reads 1) refl refl refl

anna_out : (logout deps "anna" no_caller 1 logged_in).0 ≡ returned "Logged out successfully"
unfolding logout create_audit_log Redis.del
anna_out = refl

logged_out_example :
    Refused deps
      (refresh_tokens deps "s4" "R0anna" 2 (logout deps "anna" no_caller 1 logged_in).1).0
logged_out_example =
    logged_out deps Cache.memory-IsErasing "s4" "R0anna" "anna" no_caller 1 2 logged_in
      "Logged out successfully" (λ k. (_, refl)) anna_out
      (λ p v. ap TokenPayload.sub (returned-inj (sym v ∙ anna_reads 2)))

apart :
    (entry : AuditEntry) (d : Databases) → sessions.rows (audit.create entry d).1 ≡ sessions.rows d
apart entry d = refl

abbrev guests : GuestRemote Databases
guests = record {
  find_by_device = λ device platform d. returned none;
  create_guest = λ dto d. (returned anna, d);
  convert_guest = λ dto d. (returned anna, d);
}

abbrev conversion : ConvertGuestDto
conversion = record {
  guest_user_id = "anna";
  email = "anna@example.org";
  username = none;
  password = "secret";
  first_name = none;
  last_name = none;
  city_id = none;
}

abbrev cities : CityDb
cities = record { active_children = λ id. returned []; find_city = λ id. returned none }

abbrev assign : AssignRequest → Action Databases String
assign request d = (returned "assignment", d)

abbrev dto : AssignDto
dto = record { user_id = "anna"; city_id = "kiel"; role = 2 }

assigned :
    (assign_city_admin deps cities assign
      (λ id d. returned [])
      3
      dto
      "root"
      (some (number 1))
      start).0
    ≡ returned "assignment"
unfolding assign_city_admin assign_as assign_to requester_role is_permitted can_grant claimed_role
    number_to_role
assigned = refl

assign_city_admin-Assigned_example :
    Assigned deps cities assign (λ id d. returned []) 3 dto "root" (some (number 1)) start
assign_city_admin-Assigned_example =
    assign_city_admin-Assigned deps cities assign (λ id d. returned []) 3 dto "root"
      (some (number 1)) start "assignment" assigned
