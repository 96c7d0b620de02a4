-- ===== src/Auth/Service/Lockout.antt =====
-- Who is let in by `AuthService.login`, and when an account is locked.
use zero_shield.Base.{
  ℕ, List, not, ◌&&◌, if◌then◌else◌, ◌+◌, ◌≤◌, ◌<◌, String, ◌≡◌, refl, ◌∙◌, inl, inr, Bool, true,
  false, Bool-cases, is_some, Option, none, some, arith, ltb,
}
use zero_shield.Base.Effects.{Result, ok, err}
use zero_shield.Auth.Accounts.{
  find_by_username, find_user, failed_once, find_by_username-amend_user,
}
use zero_shield.Auth.Models.{SessionRecord, UserWithCredentials}
use zero_shield.Auth.Service.{
  AuthStore, AuthError, LoginResult, lockout_duration, max_failed_login_attempts, is_locked,
  lock_for, record_failed_attempt, open_session, admit, login_found, login, new_session,
}

abbrev pub is_ok : Result AuthError LoginResult → Bool
is_ok (ok x) = true
is_ok (err e) = false

record_failed_attempt-sessions :
    (u : UserWithCredentials) (now : ℕ) (s : AuthStore)
    → (record_failed_attempt u now s).sessions ≡ s.sessions
unfolding record_failed_attempt
record_failed_attempt-sessions u now s = refl

module _ (verify : String → String → Bool) (digest : String → String) where
  -- A locked account is refused whatever the password is
  login-locked :
      (name password raw_token : String) (ip_address user_agent : Option String) (now until : ℕ)
      (u : UserWithCredentials) (s : AuthStore)
      → find_by_username name s.users ≡ some u
      → u.locked_until ≡ some until
      → now < until
      → let (r, after) = login verify digest name password raw_token ip_address user_agent now s in
        (r ≡ err (AuthError.account_locked until))
        × (after.users ≡ s.users)
        × (after.sessions ≡ s.sessions)
  unfolding login login_found
  login-locked name password raw_token ip_address user_agent now until u s found locked early =
      let is_early : ltb now until ≡ true = ground arith in
      rw (found, locked, is_early) (refl, refl, refl)

  -- A wrong password at the limit of failed attempts locks the account
  record_failed_attempt-locks :
      (name : String) (now : ℕ) (u : UserWithCredentials) (s : AuthStore)
      → find_by_username name s.users ≡ some u
      → find_user u.user_id s.users ≡ some u
      → max_failed_login_attempts ≤ u.failed_login_attempts + 1
      → find_by_username name (record_failed_attempt u now s).users
        ≡ some (failed_once (some (now + lockout_duration)) now u)
  unfolding record_failed_attempt
  record_failed_attempt-locks name now u s found by_id many =
      let lock : lock_for (u.failed_login_attempts + 1) now ≡ some (now + lockout_duration) =
        ground arith in
      rw lock (
        find_by_username-amend_user name (failed_once (some (now + lockout_duration)) now) s.users u
          refl found by_id)

  login-wrong_password :
      (name password raw_token : String) (ip_address user_agent : Option String) (now : ℕ)
      (u : UserWithCredentials) (s : AuthStore)
      → find_by_username name s.users ≡ some u
      → is_locked u.locked_until now ≡ false
      → verify password u.password_hash ≡ false
      → login verify digest name password raw_token ip_address user_agent now s
        ≡ (err AuthError.invalid_credentials, record_failed_attempt u now s)
  unfolding login login_found
  login-wrong_password name password raw_token ip_address user_agent now u s found free wrong =
      rw (found, free, wrong) refl

  -- A wrong password that brings an account which is not locked to five failed attempts in a row
  -- is answered like any wrong password, opens no session, and locks the account: if anyone logs
  -- in as that user in the next 15 minutes, with the right password or not, the answer is until
  -- when the account is locked, and neither a session nor a user changes.
  pub login-locks_out :
      (name password raw_token : String) (ip_address user_agent : Option String) (now : ℕ)
      (u : UserWithCredentials) (s : AuthStore) (password1 raw_token1 : String)
      (ip_address1 user_agent1 : Option String) (later : ℕ)
      → find_by_username name s.users ≡ some u
      → find_user u.user_id s.users ≡ some u
      → is_locked u.locked_until now ≡ false
      → verify password u.password_hash ≡ false
      → max_failed_login_attempts ≤ u.failed_login_attempts + 1
      → later < now + lockout_duration
      → let (r, after) = login verify digest name password raw_token ip_address user_agent now s in
        let (r1, end) =
          login verify digest name password1 raw_token1 ip_address1 user_agent1 later after in
        (r ≡ err AuthError.invalid_credentials)
        × (after.sessions ≡ s.sessions)
        × (r1 ≡ err (AuthError.account_locked (now + lockout_duration)))
        × (end.users ≡ after.users)
        × (end.sessions ≡ s.sessions)
  login-locks_out name password raw_token ip_address user_agent now u s password1 raw_token1 ip1
        agent1 later found by_id free wrong many early =
      let step =
        login-wrong_password name password raw_token ip_address user_agent now u s found free
          wrong in
      let locked = record_failed_attempt-locks name now u s found by_id many in
      let kept = record_failed_attempt-sessions u now s in
      let (r, users, sessions) =
        login-locked name password1 raw_token1 ip1 agent1 later (now + lockout_duration)
          (failed_once (some (now + lockout_duration)) now u) (record_failed_attempt u now s) locked
          refl early in
      rw step (refl, kept, r, users, sessions ∙ kept)

  -- Who may log in: the user of that name, active and not locked, with the right password
  abbrev pub admissible : Option UserWithCredentials → String → ℕ → Option UserWithCredentials
  admissible none password now = none
  admissible (some u) password now =
      if not (is_locked u.locked_until now) && verify password u.password_hash && u.active
      then some u
      else none

  -- The sessions after a log in by the user who may
  abbrev pub sessions_after :
      Option UserWithCredentials
      → String
      → Option String
      → Option String
      → ℕ
      → List SessionRecord
      → List SessionRecord
  sessions_after none raw_token ip_address user_agent now sessions = sessions
  sessions_after (some u) raw_token ip_address user_agent now sessions =
      open_session (new_session (digest raw_token) u.user_id ip_address user_agent now) now sessions

  login_found-admits :
      (o : Option UserWithCredentials) (name password raw_token : String)
      (ip_address user_agent : Option String) (now : ℕ) (s : AuthStore)
      → let (r, after) =
          login_found verify digest o name password raw_token ip_address user_agent now s in
        let admitted = admissible o password now in
        (is_ok r ≡ is_some admitted)
        × (after.sessions ≡ sessions_after admitted raw_token ip_address user_agent now s.sessions)
  unfolding login_found admit record_failed_attempt
  login_found-admits none name password raw_token ip_address user_agent now s = (refl, refl)
  login_found-admits (some u) name password raw_token ip_address user_agent now s =
      elim (Bool-cases (is_locked u.locked_until now)) [
        | inl locked ↦ rw locked (refl, refl)
        | inr free ↦ elim (Bool-cases (verify password u.password_hash)) [
          | inr wrong ↦ rw (free, wrong) (refl, refl)
          | inl right ↦ elim (Bool-cases u.active) [
            | inl active ↦ rw (free, right, active) (refl, refl)
            | inr inactive ↦ rw (free, right, inactive) (refl, refl)
          ]
        ]
      ]

  -- A login succeeds exactly if the username is that of an active account which is not locked and
  -- the password is right. It then deletes the expired sessions and opens one for that user, under
  -- the digest of the token; any other login leaves the sessions as they are.
  pub login-admits :
      (name password raw_token : String) (ip_address user_agent : Option String) (now : ℕ)
      (s : AuthStore)
      → let (r, after) = login verify digest name password raw_token ip_address user_agent now s in
        let admitted = admissible (find_by_username name s.users) password now in
        (is_ok r ≡ is_some admitted)
        × (after.sessions ≡ sessions_after admitted raw_token ip_address user_agent now s.sessions)
  unfolding login
  login-admits name password raw_token ip_address user_agent now s =
      login_found-admits (find_by_username name s.users) name password raw_token ip_address
        user_agent now s
