-- ===== src/Auth/Service/Tests.antt =====
-- Logging in at a small table of users: the password is its own hash, the token its own digest.
use zero_shield.Base.{String, ◌≡◌, refl, true, false, none, some, [], ◌∷◌, arith, str_eq, is_some}
use zero_shield.Base.Effects.{err}
use zero_shield.Audit.{Role}
use zero_shield.Auth.Accounts.{find_by_username, find_user, amend_user}
use zero_shield.Auth.Models.{UserWithCredentials, SessionRecord}
use zero_shield.Auth.Service.{
  AuthStore, AuthError, login, login_found, admit, record_failed_attempt,
}
use zero_shield.Auth.Service.Lockout.{
  login-locks_out, login-admits, admissible, sessions_after, is_ok,
}

abbrev pub ann : UserWithCredentials
ann = record {
  user_id = "u-1";
  username = "ann";
  role = Role.admin;
  active = true;
  created_at = 0;
  updated_at = 0;
  password_hash = "secret";
  failed_login_attempts = 4;
  locked_until = some 50;
}

abbrev pub bob : UserWithCredentials
bob = record ann { user_id = "u-2"; username = "bob"; active = false; locked_until = none }

abbrev pub old_session : SessionRecord
old_session = record {
  session_id = "old";
  user_id = "u-1";
  created_at = 0;
  expires_at = 90;
  last_used_at = 0;
  ip_address = none;
  user_agent = none;
}

abbrev pub start : AuthStore
start = record { users = bob ∷ ann ∷ []; sessions = old_session ∷ []; audit = [] }

abbrev pub digest : String → String
digest token = token

login-locks_out_example :
    let (r, after) = login str_eq digest "ann" "wrong" "t-1" none none 100 start in
    let (r1, end) = login str_eq digest "ann" "secret" "t-2" none none 999 after in
    (r ≡ err AuthError.invalid_credentials)
    × (after.sessions ≡ start.sessions)
    × (r1 ≡ err (AuthError.account_locked 1000))
    × (end.users ≡ after.users)
    × (end.sessions ≡ start.sessions)
unfolding find_by_username find_user
login-locks_out_example =
    login-locks_out str_eq digest "ann" "wrong" "t-1" none none 100 ann start "secret" "t-2" none
      none 999 refl refl refl refl (omega arith) (omega arith)

login-admits_example :
    let (r, after) = login str_eq digest "ann" "secret" "t-1" none none 100 start in
    let admitted = admissible str_eq digest (find_by_username "ann" start.users) "secret" 100 in
    (is_ok r ≡ is_some admitted)
    × (after.sessions ≡ sessions_after str_eq digest admitted "t-1" none none 100 start.sessions)
login-admits_example = login-admits str_eq digest "ann" "secret" "t-1" none none 100 start

-- After 15 minutes the right password lets the user in again, and counts from 0.
unlocks :
    let (r, after) = login str_eq digest "ann" "wrong" "t-1" none none 100 start in
    let (r1, end) = login str_eq digest "ann" "secret" "t-2" none none 1000 after in is_ok r1 ≡ true
unfolding login login_found find_by_username record_failed_attempt amend_user admit
unlocks = refl

inactive :
    (login str_eq digest "bob" "secret" "t-1" none none 100 start).0
    ≡ err AuthError.account_inactive
unfolding login login_found find_by_username admit
inactive = refl
