-- ===== src/Auth/Login/Refusals.antt =====
-- apps/auth/src/modules/auth/auth.service.ts: how `login` refuses an account.
use mathlib.Core.Path.{Path}
use heidi_microservices.Common.{
  ℕ, ◌≡◌, ◌≢◌, refl, ap, Bool, true, false, not, Option, none, some, String, text_append,
  if◌then◌else◌,
}
use heidi_microservices.Common.Outcome.{
  Outcome, returned, thrown, unfinished, Exception, unauthorized, forbidden,
}
use heidi_microservices.Common.Action.{◌>>=◌, continue, query, throw}
use heidi_microservices.Auth.{
  World, User, AuditEntry, Deps, Caller, login as login_action, quiet, handled, create_audit_log,
}
use heidi_microservices.Auth.Steady.{Steady, >>=-Steady, create_audit_log-Steady}
use heidi_microservices.Auth.Login.{
  LoginDto, LoginAnswer, is_http, needs_verification, log_login, refuse, check_password, login_user,
  login_found, login_failed, login,
}

module _ {R D : Type 0} (deps : Deps R D) where
  -- What `login` answers to an account and the verdict on its password, if not with tokens.
  abbrev pub refusal : Option User → Bool → Option Exception
  refusal none valid = some (unauthorized "ACCOUNT_NOT_FOUND")
  refusal (some user) valid =
      if not user.is_active
      then some (unauthorized "ACCOUNT_INACTIVE")
      else if needs_verification user
      then some (forbidden "EMAIL_VERIFICATION_REQUIRED")
      else if valid
      then none
      else some (unauthorized "INVALID_CREDENTIALS")

  -- The log takes an entry, or throws.
  abbrev pub Logs : D → Type 0
  Logs d = (entry : AuditEntry) → (deps.audit.create entry d).0 ≢ unfinished

  refuse_throws :
      (user : Option String) (reason : String) (e : Exception) (caller : Caller) (s : World R D)
      → Logs s.db
      → Path (Outcome LoginAnswer) (refuse deps user reason e caller s).0 (thrown e)
  unfolding refuse create_audit_log
  refuse_throws user reason e caller s h = go (deps.audit.create entry s.db).0 (h entry)
    where
      entry : AuditEntry
      entry = record {
        user_id = user;
        action = login_action;
        success = false;
        failure_reason = some reason;
        ip_address = caller.ip_address;
        user_agent = caller.user_agent;
      }

      go :
          (o : Outcome AuditEntry)
          → o ≢ unfinished
          → Path
              (Outcome LoginAnswer)
              (continue
                (λ _. throw e)
                (quiet (o, record s { db = (deps.audit.create entry s.db).1 }))).0
              (thrown e)
      go (returned a) k = refl
      go (thrown x) k = refl
      go unfinished k = absurd (k refl)

  refuse-Steady :
      (user : Option String) (reason : String) (e : Exception) (caller : Caller)
      → Steady {A = LoginAnswer} (refuse deps user reason e caller)
  unfolding refuse
  refuse-Steady user reason e caller =
      >>=-Steady (log_login deps user false (some reason) caller) (λ _. throw e)
        (create_audit_log-Steady deps.audit _ _ _ _ _) (λ _ s. refl)

  abbrev pub Refuses : Exception → World R D → Outcome LoginAnswer × World R D → Type 0
  Refuses e s r = (r.0 ≡ thrown e) × (r.1.cache ≡ s.cache)

  refuse-Refuses :
      (user : Option String) (reason : String) (e : Exception) (caller : Caller) (s : World R D)
      → Logs s.db
      → Refuses e s (refuse deps user reason e caller s)
  refuse-Refuses user reason e caller s h =
      (refuse_throws user reason e caller s h, refuse-Steady user reason e caller s)

  handled-Refuses :
      (caller : Caller) (e : Exception) (s : World R D) (r : Outcome LoginAnswer × World R D)
      → is_http e ≡ true
      → Refuses e s r
      → Refuses e s (handled (login_failed deps caller) r)
  unfolding login_failed
  handled-Refuses caller e s (returned a, t) i h = cc
  handled-Refuses caller e s (thrown x, t) i h =
      let same : x ≡ e = ap (λ m. elim m [ thrown y ↦ y | _ ↦ x ]) h.0 in rw (same, i) (refl, h.1)
  handled-Refuses caller e s (unfinished, t) i h = cc

  abbrev Ended : Exception → World R D → Outcome LoginAnswer × World R D → Type 0
  Ended e s r = Refuses e s r × (is_http e ≡ true)

  refused_as :
      (user : Option String) (reason : String) (x e : Exception) (caller : Caller) (s : World R D)
      → Logs s.db
      → is_http x ≡ true
      → some x ≡ some e
      → Ended e s (refuse deps user reason x caller s)
  refused_as user reason x e caller s h i r =
      let same : x ≡ e = ap (λ m. elim m [ some y ↦ y | none ↦ x ]) r in
      rw (← same) (refuse-Refuses user reason x caller s h, i)

  check_refused :
      (session : String) (dto : LoginDto) (caller : Caller) (now : ℕ) (s : World R D) (u : User)
      (valid : Bool) (e : Exception)
      → Logs s.db
      → (if valid then none else some (unauthorized "INVALID_CREDENTIALS")) ≡ some e
      → Ended e s (check_password deps session dto caller now u valid s)
  unfolding check_password
  check_refused session dto caller now s u true e h r = cc
  check_refused session dto caller now s u false e h r =
      refused_as (some u.id) _ (unauthorized "INVALID_CREDENTIALS") e caller s h refl r

  -- An account that is missing, inactive, not verified, or given a wrong password is refused, with
  -- the exception of the first of these reasons, and the stored tokens are what they were, if the log
  -- answers, be it with an exception.
  pub login_refused :
      (session : String) (dto : LoginDto) (caller : Caller) (now : ℕ) (s : World R D)
      (o : Option User) (valid : Bool) (e : Exception)
      → deps.remote.find_by_email dto.email s.db ≡ returned o
      → ((u : User) → o ≡ some u → deps.remote.compare dto.password u.password ≡ returned valid)
      → Logs s.db
      → refusal o valid ≡ some e
      → Refuses e s (login deps session dto caller now s)
  unfolding login login_found login_user
  login_refused session dto caller now s o valid e f p h r =
      let (refuses, http) = by_found o p r in
      rw f (handled-Refuses caller e s (login_found deps session dto caller now o s) http refuses)
    where
      by_tests :
          (u : User)
          → deps.remote.compare dto.password u.password ≡ returned valid
          → (active unverified : Bool)
          → (if not active
              then some (unauthorized "ACCOUNT_INACTIVE")
              else if unverified
              then some (forbidden "EMAIL_VERIFICATION_REQUIRED")
              else if valid
              then none
              else some (unauthorized "INVALID_CREDENTIALS"))
            ≡ some e
          → Ended e s (
              (if not active
                  then refuse deps
                      (some u.id)
                      (text_append "Account is inactive for email: " dto.email)
                      (unauthorized "ACCOUNT_INACTIVE")
                      caller
                  else if unverified
                  then refuse deps
                      (some u.id)
                      "Email not verified"
                      (forbidden "EMAIL_VERIFICATION_REQUIRED")
                      caller
                  else (query (λ _. deps.remote.compare dto.password u.password)
                      >>= check_password deps session dto caller now u))
                s)
      by_tests u p false c r = refused_as (some u.id) _ _ e caller s h refl r
      by_tests u p true true r = refused_as (some u.id) _ _ e caller s h refl r
      by_tests u p true false r = rw p (check_refused session dto caller now s u valid e h r)

      by_found :
          (o : Option User)
          → ((u : User) → o ≡ some u → deps.remote.compare dto.password u.password ≡ returned valid)
          → refusal o valid ≡ some e
          → Ended e s (login_found deps session dto caller now o s)
      by_found none p r = refused_as none _ _ e caller s h refl r
      by_found (some u) p r = by_tests u (p u refl) u.is_active (needs_verification u) r
