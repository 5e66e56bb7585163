-- ===== src/Auth/Login/Laws.antt =====
-- apps/auth/src/modules/auth/auth.service.ts: who is let in by `login`, and how it refuses.
use heidi_microservices.Common.{
  either, ℕ, ◌≡◌, refl, ◌∙◌, Bool, true, false, not, Option, none, some, String, text_append,
  if◌then◌else◌,
}
use heidi_microservices.Common.Outcome.{
  Outcome, returned, thrown, unfinished, Exception, unauthorized, forbidden,
}
use heidi_microservices.Common.Action.{Action, ◌>>=◌, query, bind_returned}
use heidi_microservices.Auth.{World, User, Deps, Caller, handled, read_db}
use heidi_microservices.Auth.Login.{
  LoginDto, LoginAnswer, is_http, needs_verification, log_login, admit, refuse, check_password,
  login_user, login_found, login_failed, login,
}

module _ {R D : Type 0} (deps : Deps R D) where
  -- A user that may log in with the password, and what the login does then.
  pub record Admitted (session : String) (dto : LoginDto) (caller : Caller) (now : ℕ)
      (s : World R D) : Type 0 where
    pub user : User
    pub found : deps.remote.find_by_email dto.email s.db ≡ returned (some user)
    pub active : user.is_active ≡ true
    pub verified : needs_verification user ≡ false
    pub password : deps.remote.compare dto.password user.password ≡ returned true
    pub result : login deps session dto caller now s ≡ admit deps session dto caller now user s

  refuse_returns :
      {A : Type 0} (user : Option String) (reason : String) (e : Exception) (caller : Caller)
      (s : World R D) {a : A}
      → ¬ ((refuse deps user reason e caller s).0 ≡ returned a)
  unfolding refuse
  refuse_returns user reason e caller s h =
      let (_, _, _, k) = bind_returned (log_login deps user false (some reason) caller) _ s h in cc

  failed_returns :
      {A : Type 0} (caller : Caller) (e : Exception) (s : World R D) {a : A}
      → ¬ ((login_failed deps caller e s).0 ≡ returned a)
  unfolding login_failed
  failed_returns {A} caller e s {a} =
      either (λ (m : Action (World R D) A). ¬ ((m s).0 ≡ returned a)) (is_http e) (λ _ h. cc)
        (λ _. refuse_returns none _ _ caller s)

  handled_returns :
      {A : Type 0} (caller : Caller) (r : Outcome A × World R D) {a : A}
      → (handled (login_failed deps caller) r).0 ≡ returned a
      → (handled (login_failed deps caller) r ≡ r) × (r.0 ≡ returned a)
  handled_returns caller (returned x, s) h = (refl, h)
  handled_returns caller (thrown e, s) h = absurd (failed_returns caller e s h)
  handled_returns caller (unfinished, s) h = cc

  -- `login` returns only to an account that exists, is active, has verified its e-mail address if it
  -- has one, and whose password is the given one.
  pub login-Admitted :
      (session : String) (dto : LoginDto) (caller : Caller) (now : ℕ) (s : World R D)
      (a : LoginAnswer)
      → (login deps session dto caller now s).0 ≡ returned a
      → Admitted session dto caller now s
  unfolding login login_found login_user check_password
  login-Admitted session dto caller now s a h =
      let (same, g) = handled_returns caller _ h in
      let (o, f, e, k) =
        bind_returned (read_db (deps.remote.find_by_email dto.email))
          (login_found deps session dto caller now) s g in
      by_found o f (same ∙ e) k
    where
      whole : Outcome LoginAnswer × World R D
      whole = login deps session dto caller now s

      tested : User → Bool → Bool → Outcome LoginAnswer × World R D
      tested u b c =
          (if not b
              then refuse deps (some u.id) (text_append "Account is inactive for email: " dto.email)
                  (unauthorized "ACCOUNT_INACTIVE") caller
              else if c
              then refuse deps (some u.id) "Email not verified"
                  (forbidden "EMAIL_VERIFICATION_REQUIRED") caller
              else (query (λ _. deps.remote.compare dto.password u.password)
                  >>= check_password deps session dto caller now u))
            s

      by_password :
          (u : User) (v : Bool)
          → deps.remote.find_by_email dto.email s.db ≡ returned (some u)
          → u.is_active ≡ true
          → needs_verification u ≡ false
          → deps.remote.compare dto.password u.password ≡ returned v
          → whole ≡ check_password deps session dto caller now u v s
          → (check_password deps session dto caller now u v s).0 ≡ returned a
          → Admitted session dto caller now s
      by_password u true f x y p e l = record {
        user = u;
        found = f;
        active = x;
        verified = y;
        password = p;
        result = e;
      }
      by_password u false f x y p e l = absurd (refuse_returns (some u.id) _ _ caller s l)

      by_tests :
          (u : User)
          → deps.remote.find_by_email dto.email s.db ≡ returned (some u)
          → (b c : Bool) → u.is_active ≡ b
          → needs_verification u ≡ c
          → whole ≡ tested u b c
          → (tested u b c).0 ≡ returned a
          → Admitted session dto caller now s
      by_tests u f false c x y e k = absurd (refuse_returns (some u.id) _ _ caller s k)
      by_tests u f true true x y e k = absurd (refuse_returns (some u.id) _ _ caller s k)
      by_tests u f true false x y e k =
          let (v, p, e', l) =
            bind_returned (query (λ _. deps.remote.compare dto.password u.password))
              (check_password deps session dto caller now u) s k in
          by_password u v f x y p (e ∙ e') l

      by_found :
          (o : Option User)
          → deps.remote.find_by_email dto.email s.db ≡ returned o
          → whole ≡ login_found deps session dto caller now o s
          → (login_found deps session dto caller now o s).0 ≡ returned a
          → Admitted session dto caller now s
      by_found none f e k = absurd (refuse_returns none _ _ caller s k)
      by_found (some u) f e k = by_tests u f u.is_active (needs_verification u) refl refl e k
