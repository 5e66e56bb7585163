-- ===== src/Auth/Sessions/Revoked.antt =====
-- apps/auth/src/modules/auth/auth.service.ts: which sessions the three methods revoke.
use heidi_microservices.Common.{
  either, ℕ, ◌≡◌, ◌≢◌, refl, sym, ap, ◌∙◌, inl, inr, eq_iff, Bool, true, false, none, some, String,
  List, In, In-map, str_eq, Bool-cases, if◌then◌else◌,
}
use heidi_microservices.Common.Outcome.{Outcome, returned, thrown, unfinished}
use heidi_microservices.Common.Action.{bind_returned}
use heidi_microservices.Database.{IsTable, apply_where}
use heidi_microservices.Auth.{
  World, Deps, Session, AuditEntry, Caller, on_db, cache_del, refresh_key, no_caller,
  create_audit_log, quiet, logout as logout_action,
}
use heidi_microservices.Auth.Sessions.{is_active_of, revoke_row, logout, revoke_all_sessions}

module _ {R D : Type 0} (deps : Deps R D) (laws : IsTable deps.sessions)
    (apart : (entry : AuditEntry) (d : D)
      → deps.sessions.rows (deps.audit.create entry d).1 ≡ deps.sessions.rows d) where
  abbrev sessions_of : World R D → List Session
  sessions_of s = deps.sessions.rows s.db

  -- No session of the user is left active.
  abbrev pub NoneActive : String → World R D → Type 0
  NoneActive user s = (r : Session) → In r (sessions_of s) → is_active_of user r ≡ false

  -- The sessions of other users are what they were.
  abbrev pub OthersKept : String → World R D → World R D → Type 0
  OthersKept user s t =
      (r : Session)
      → r.user_id ≢ user
      → (In r (sessions_of t) → In r (sessions_of s))
        × (In r (sessions_of s) → In r (sessions_of t))

  logged :
      (user : String) (caller : Caller) (s : World R D)
      → sessions_of (create_audit_log deps.audit (some user) logout_action true none caller s).1
        ≡ sessions_of s
  unfolding create_audit_log
  logged user caller s = go (deps.audit.create _ s.db).0
    where
      entry : AuditEntry
      entry = record {
        user_id = some user;
        action = logout_action;
        success = true;
        failure_reason = none;
        ip_address = caller.ip_address;
        user_agent = caller.user_agent;
      }

      go :
          (o : Outcome AuditEntry)
          → sessions_of (quiet (o, record s { db = (deps.audit.create entry s.db).1 })).1
            ≡ sessions_of s
      go (returned a) = apart entry s.db
      go (thrown e) = apart entry s.db
      go unfinished = apart entry s.db

  revoked_rows :
      (p : Session → Bool) (now : ℕ) (d : D) {a : ℕ}
      → (deps.sessions.update_many p (revoke_row now) d).0 ≡ returned a
      → deps.sessions.rows (deps.sessions.update_many p (revoke_row now) d).1
        ≡ apply_where p (revoke_row now) (deps.sessions.rows d)
  revoked_rows p now d {a} h = elim (laws.update_many_effect p (revoke_row now) d) [
    | inl (b, _, e) ↦ e
    | inr (never, _) ↦ absurd (never a h)
  ]

  abbrev pub Revoked : String → World R D → World R D → Type 0
  Revoked user s t = NoneActive user t × OthersKept user s t

  module _ (user : String) (now : ℕ) where
    abbrev changed : Session → Session
    changed q = if is_active_of user q then revoke_row now q else q

    changed_inactive : (q : Session) → is_active_of user (changed q) ≡ false
    changed_inactive q =
        either (λ (r : Session). is_active_of user r ≡ false) (is_active_of user q)
          (λ h. elim (Bool-cases (str_eq q.user_id user)) [ inl e ↦ rw e | inr e ↦ rw e ]) (λ h. h)

    changed_user : (q : Session) → (changed q).user_id ≡ q.user_id
    changed_user q =
        either (λ (r : Session). r.user_id ≡ q.user_id) (is_active_of user q) (λ h. refl)
          (λ h. refl)

    changed_other : (q : Session) → q.user_id ≢ user → changed q ≡ q
    changed_other q other =
        let no = eq_iff q.user_id user in
        either (λ r. r ≡ q) (is_active_of user q)
          (λ h. elim (Bool-cases (str_eq q.user_id user)) [
            | inl e ↦ absurd (other (no.0 e))
            | inr e ↦ let k = rw e at h in cc
          ])
          (λ h. refl)

  apply_where-Revoked :
      (user : String) (now : ℕ) (s t : World R D)
      → sessions_of t ≡ apply_where (is_active_of user) (revoke_row now) (sessions_of s)
      → Revoked user s t
  apply_where-Revoked user now s t e = (
    λ r m.
        let (q, i, x) = (In-map (changed user now) (sessions_of s) r).0 (rw e at m) in
        rw x (changed_inactive user now q),
    λ r other. (
      λ m.
          let (q, i, x) = (In-map (changed user now) (sessions_of s) r).0 (rw e at m) in
          let apart_user : q.user_id ≢ user =
            λ h. other (ap Session.user_id x ∙ (changed_user user now q ∙ h)) in
          rw (x ∙ changed_other user now q apart_user) i,
      λ m. rw e (
          (In-map (changed user now) (sessions_of s) r).1
            (r, m, sym (changed_other user now r other))),
    ),
  )

  -- After a logout that returned, no session of the user is active, and other users have the
  -- sessions they had.
  pub logout-Revoked :
      (user : String) (caller : Caller) (now : ℕ) (s : World R D) (m : String)
      → (logout deps user caller now s).0 ≡ returned m
      → Revoked user s (logout deps user caller now s).1
  unfolding logout
  logout-Revoked user caller now s m h =
      let (_, _, e, h1) = bind_returned (cache_del deps.cache (refresh_key user)) _ s h in
      let (_, u, e1, h2) =
        bind_returned (on_db (deps.sessions.update_many (is_active_of user) (revoke_row now))) _ _
          h1 in
      let (_, _, e2, _) =
        bind_returned (create_audit_log deps.audit (some user) logout_action true none caller) _ _
          h2 in
      apply_where-Revoked user now s (logout deps user caller now s).1 (
        ap (λ r. sessions_of r.1) (e ∙ (e1 ∙ e2))
        ∙ (logged user caller _ ∙ revoked_rows (is_active_of user) now s.db u))

  -- The same after `revokeAllSessions`.
  pub revoke_all_sessions-Revoked :
      (user : String) (now : ℕ) (s : World R D) (n : ℕ)
      → (revoke_all_sessions deps user now s).0 ≡ returned n
      → Revoked user s (revoke_all_sessions deps user now s).1
  unfolding revoke_all_sessions
  revoke_all_sessions-Revoked user now s n h =
      let (_, u, e, h1) =
        bind_returned (on_db (deps.sessions.update_many (is_active_of user) (revoke_row now))) _ s
          h in
      let (_, _, e1, h2) = bind_returned (cache_del deps.cache (refresh_key user)) _ _ h1 in
      let (_, _, e2, _) =
        bind_returned (create_audit_log deps.audit (some user) logout_action true none no_caller) _
          _ h2 in
      apply_where-Revoked user now s (revoke_all_sessions deps user now s).1 (
        ap (λ r. sessions_of r.1) (e ∙ (e1 ∙ e2))
        ∙ (logged user no_caller _ ∙ revoked_rows (is_active_of user) now s.db u))
