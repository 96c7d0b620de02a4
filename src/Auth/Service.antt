-- ===== src/Auth/Service.antt =====
-- `login` of src/zeroshield/auth/service.py. `verify` is what argon2 says of a password and a hash
-- that it made, `digest` the SHA-256 of a session token; the fresh token and what the clock shows
-- are arguments, times in seconds.
pub mod Lockout
pub mod Tests
use zero_shield.Base.{
  ℕ, ◌+◌, String, Bool, true, false, not, ◌&&◌, ◌||◌, Option, none, some, List, [], ◌∷◌, ◌++◌, keep,
  leb, ltb, str_eq, if◌then◌else◌,
}
use zero_shield.Base.Effects.{Result, ok, err, Action}
use zero_shield.Audit.{AuditAction, MetaValue, AuditEvent, record_event}
use zero_shield.Auth.Accounts.{find_by_username, amend_user, failed_once, logged_in}
use zero_shield.Auth.Models.{User, UserWithCredentials, SessionRecord}

-- 12 hours, and 15 minutes
abbrev pub session_ttl : ℕ
session_ttl = 43200

abbrev pub lockout_duration : ℕ
lockout_duration = 900

abbrev pub max_failed_login_attempts : ℕ
max_failed_login_attempts = 5

pub record AuthStore : Type 0 where
  pub users : List UserWithCredentials
  pub sessions : List SessionRecord
  pub audit : List AuditEvent

pub data AuthError : Type 0 where
  invalid_credentials : AuthError
  account_locked : ℕ → AuthError
  account_inactive : AuthError

abbrev pub Auth : Type 0 → Type 0
Auth A = Action AuthStore AuthError A

pub record LoginResult : Type 0 where
  pub user : User
  pub raw_session_token : String
  pub session : SessionRecord

-- `locked_until is not None and locked_until > now`
abbrev pub is_locked : Option ℕ → ℕ → Bool
is_locked none now = false
is_locked (some t) now = ltb now t

-- `datetime.now(UTC) + LOCKOUT_DURATION if new_count >= MAX_FAILED_LOGIN_ATTEMPTS else None`
abbrev pub lock_for : ℕ → ℕ → Option ℕ
lock_for new_count now =
    if leb max_failed_login_attempts new_count then some (now + lockout_duration) else none

abbrev pub user_event : AuditAction → UserWithCredentials → List (String × MetaValue) → AuditEvent
user_event action u metadata = record {
  actor_user_id = some u.user_id;
  actor_username = some u.username;
  actor_role = some u.role;
  action = action;
  target_type = "user";
  target_id = some u.user_id;
  metadata = metadata;
}

abbrev pub unknown_event : String → AuditEvent
unknown_event username = record {
  actor_user_id = none;
  actor_username = some username;
  actor_role = none;
  action = AuditAction.login_failure;
  target_type = "user";
  target_id = none;
  metadata = ("reason", MetaValue.text "unknown_username") ∷ [];
}

abbrev pub lock_event : UserWithCredentials → Option ℕ → List AuditEvent
lock_event u none = []
lock_event u (some t) =
    user_event AuditAction.account_locked u (("locked_until", MetaValue.number t) ∷ []) ∷ []

-- `_record_failed_attempt`
unfoldable pub record_failed_attempt : UserWithCredentials → ℕ → AuthStore → AuthStore
unfolding amend_user
record_failed_attempt u now s =
    let new_count = u.failed_login_attempts + 1 in
    record s {
      users = amend_user u.user_id (failed_once (lock_for new_count now) now) s.users;
      audit =
          s.audit
          ++ user_event AuditAction.login_failure u (
              ("reason", MetaValue.text "bad_password")
              ∷ ("attempt", MetaValue.number new_count)
              ∷ [])
            ∷ lock_event u (lock_for new_count now);
    }

abbrev pub plain_user : UserWithCredentials → User
plain_user u = record {
  user_id = u.user_id;
  username = u.username;
  role = u.role;
  active = u.active;
  created_at = u.created_at;
  updated_at = u.updated_at;
}

abbrev pub failure_reason : String → List (String × MetaValue)
failure_reason reason = ("reason", MetaValue.text reason) ∷ []

abbrev pub ip_metadata : Option String → List (String × MetaValue)
ip_metadata none = []
ip_metadata (some ip) = if str_eq ip "" then [] else ("ip_address", MetaValue.text ip) ∷ []

-- `create_session`, with what `login` passes it
abbrev pub new_session : String → String → Option String → Option String → ℕ → SessionRecord
new_session session_id_hash user_id ip_address user_agent now = record {
  session_id = session_id_hash;
  user_id = user_id;
  created_at = now;
  expires_at = now + session_ttl;
  last_used_at = now;
  ip_address = ip_address;
  user_agent = user_agent;
}

-- `delete_expired_sessions`, then `create_session`
abbrev pub open_session : SessionRecord → ℕ → List SessionRecord → List SessionRecord
open_session session now sessions = keep (λ x. not (ltb x.expires_at now)) sessions ++ session ∷ []

abbrev pub or_zero : Option ℕ → ℕ
or_zero none = 0
or_zero (some t) = t

module _ (verify : String → String → Bool) (digest : String → String) where
  -- The part of `login` after the password was found right
  unfoldable pub admit :
      UserWithCredentials
      → (raw_token : String) (ip_address user_agent : Option String) (now : ℕ) → Auth LoginResult
  unfolding amend_user
  admit u raw_token ip_address user_agent now s =
      if not u.active
      then (
        err AuthError.account_inactive,
        record s {
          audit =
              record_event
                (user_event AuditAction.login_failure u (failure_reason "account_inactive"))
                s.audit;
        },
      )
      else let session = new_session (digest raw_token) u.user_id ip_address user_agent now in
        (
          ok (record { user = plain_user u; raw_session_token = raw_token; session = session }),
          record s {
            users = amend_user u.user_id (logged_in now) s.users;
            sessions = open_session session now s.sessions;
            audit =
                record_event (user_event AuditAction.login_success u (ip_metadata ip_address))
                  s.audit;
          },
        )

  -- `login`, from what the look for the username found
  unfoldable pub login_found :
      Option UserWithCredentials
      → (username password raw_token : String) (ip_address user_agent : Option String) (now : ℕ)
      → Auth LoginResult
  login_found none username password raw_token ip_address user_agent now s = (
    err AuthError.invalid_credentials,
    record s { audit = record_event (unknown_event username) s.audit },
  )
  login_found (some u) username password raw_token ip_address user_agent now s =
      if is_locked u.locked_until now
      then (
        err (AuthError.account_locked (or_zero u.locked_until)),
        record s {
          audit =
              record_event
                (user_event AuditAction.login_failure u (failure_reason "account_locked")) s.audit;
        },
      )
      else if verify password u.password_hash
      then admit u raw_token ip_address user_agent now s
      else (err AuthError.invalid_credentials, record_failed_attempt u now s)

  unfoldable pub login :
      (username password raw_token : String) (ip_address user_agent : Option String) (now : ℕ)
      → Auth LoginResult
  unfolding find_by_username
  login username password raw_token ip_address user_agent now s =
      login_found (find_by_username username s.users) username password raw_token ip_address
        user_agent now s
