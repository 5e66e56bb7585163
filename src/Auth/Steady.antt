-- ===== src/Auth/Steady.antt =====
-- apps/auth/src/modules/auth/auth.service.ts: the calls that leave the cache alone, the log and the
-- sessions among them.
use heidi_microservices.Common.{◌≡◌, refl, Bool, Option, String}
use heidi_microservices.Common.Outcome.{Outcome, returned, thrown, unfinished}
use heidi_microservices.Common.Action.{Fixes, >>=-Fixes, Action, ◌>>=◌}
use heidi_microservices.Database.{Table}
use heidi_microservices.Auth.{
  World, AuditEntry, Session, AuthAction, Caller, on_db, quiet, swallowed, create_audit_log,
  store_session,
}

module _ {R D : Type 0} where
  -- However the call ends, the cache is what it was.
  abbrev pub Steady : {A : Type 0} → Action (World R D) A → Type 0
  Steady m = Fixes World.cache m

  pub >>=-Steady :
      {A B : Type 0} (m : Action (World R D) A) (f : A → Action (World R D) B)
      → Steady m
      → ((a : A) → Steady (f a))
      → Steady (m >>= f)
  >>=-Steady m f h k = >>=-Fixes World.cache m f h k

  pub swallowed-Steady : {A : Type 0} (m : Action D A) → Steady (swallowed (on_db m))
  swallowed-Steady {A} m s = go (m s.db).0
    where
      go : (o : Outcome A) → (quiet (o, record s { db = (m s.db).1 })).1.cache ≡ s.cache
      go (returned a) = refl
      go (thrown x) = refl
      go unfinished = refl

  pub create_audit_log-Steady :
      (audit : Table D AuditEntry) (user : Option String) (action : AuthAction) (success : Bool)
      (reason : Option String) (caller : Caller)
      → Steady (create_audit_log audit user action success reason caller)
  unfolding create_audit_log
  create_audit_log-Steady audit user action success reason caller =
      swallowed-Steady (audit.create _)

  pub store_session-Steady :
      (sessions : Table D Session) (row : Session) → Steady (store_session sessions row)
  unfolding store_session
  store_session-Steady sessions row = swallowed-Steady (sessions.create row)
