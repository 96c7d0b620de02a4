-- ===== src/Auth/Sessions.antt =====
-- The sessions and the changes to users in src/zeroshield/auth/service.py and repository.py.
-- `digest` is the SHA-256 of a session token.
pub mod Opened
pub mod Revoked
pub mod Tests
use zero_shield.Base.{
  ℕ, String, Bool, true, not, ◌++◌, Option, none, some, List, [], ◌∷◌, keep, leb, str_eq,
  if◌then◌else◌,
}
use zero_shield.Audit.{AuditAction, Role, MetaValue, AuditEvent, record_event}
use zero_shield.Base.Effects.{Result, ok, err, Action}
use zero_shield.Auth.Accounts.{find_by_username, find_user, amend_user}
use zero_shield.Auth.Models.{User, UserWithCredentials, SessionRecord}
use zero_shield.Auth.Service.{AuthStore, plain_user}

-- `session.get(SessionORM, session_id_hash)`
unfoldable pub find_session : String → List SessionRecord → Option SessionRecord
find_session id [] = none
find_session id (r ∷ rs) =
    let below = find_session id rs in if str_eq r.session_id id then some r else below

unfoldable pub delete_session : String → List SessionRecord → List SessionRecord
delete_session id sessions = keep (λ r. not (str_eq r.session_id id)) sessions

unfoldable pub touch_session : String → ℕ → List SessionRecord → List SessionRecord
touch_session id now [] = []
touch_session id now (r ∷ rs) =
    let below = touch_session id now rs in
    if str_eq r.session_id id then record r { last_used_at = now } ∷ rs else r ∷ below

-- `get_session_with_user`: the session, and the user that it belongs to
unfoldable pub get_session_with_user :
    String → AuthStore → Option (SessionRecord × UserWithCredentials)
unfolding find_session find_user
get_session_with_user id s = with_user (find_session id s.sessions)
  where
    owned_by :
        SessionRecord → Option UserWithCredentials → Option (SessionRecord × UserWithCredentials)
    owned_by r none = none
    owned_by r (some u) = some (r, u)

    with_user : Option SessionRecord → Option (SessionRecord × UserWithCredentials)
    with_user none = none
    with_user (some r) = owned_by r (find_user r.user_id s.users)

abbrev pub actor_event : User → AuditAction → String → List (String × MetaValue) → AuditEvent
actor_event actor action target_id metadata = record {
  actor_user_id = some actor.user_id;
  actor_username = some actor.username;
  actor_role = some actor.role;
  action = action;
  target_type = "user";
  target_id = some target_id;
  metadata = metadata;
}

unfoldable pub get_user_for_session :
    (String → String) → String → ℕ → AuthStore → Option User × AuthStore
unfolding get_session_with_user touch_session delete_session
get_user_for_session digest raw_token now s = honoured (get_session_with_user (digest raw_token) s)
  where
    honoured : Option (SessionRecord × UserWithCredentials) → Option User × AuthStore
    honoured none = (none, s)
    honoured (some (r, u)) =
        if leb r.expires_at now
        then (none, record s { sessions = delete_session r.session_id s.sessions })
        else if not u.active
        then (none, s)
        else (
          some (plain_user u),
          record s { sessions = touch_session r.session_id now s.sessions },
        )

unfoldable pub logout : (String → String) → String → Option User → AuthStore → AuthStore
unfolding delete_session
logout digest raw_token none s = record s {
  sessions = delete_session (digest raw_token) s.sessions;
}
logout digest raw_token (some actor) s = record s {
  sessions = delete_session (digest raw_token) s.sessions;
  audit = record_event (actor_event actor AuditAction.logout actor.user_id []) s.audit;
}

abbrev pub or_else {ℓ} : {A : Type ℓ} → Option A → A → A
or_else none old = old
or_else (some new) old = new

-- `update_user`: the user with that id as it is afterwards, if there is one
unfoldable pub update_user :
    String → Option Role → Option Bool → ℕ → AuthStore → Option User × AuthStore
unfolding find_user amend_user
update_user user_id role active now s = written (find_user user_id s.users)
  where
    change : UserWithCredentials → UserWithCredentials
    change u = record u {
      role = or_else role u.role;
      active = or_else active u.active;
      updated_at = now;
    }

    written : Option UserWithCredentials → Option User × AuthStore
    written none = (none, s)
    written (some u) =
        (some (plain_user (change u)), record s { users = amend_user user_id change s.users })

unfoldable pub set_user_active : String → Bool → User → ℕ → AuthStore → Option User × AuthStore
unfolding update_user
set_user_active user_id active actor now s =
    let (updated, after) = update_user user_id none (some active) now s in recorded updated after
  where
    action : AuditAction
    action = if active then AuditAction.user_reactivated else AuditAction.user_deactivated

    recorded : Option User → AuthStore → Option User × AuthStore
    recorded none after = (none, after)
    recorded (some u) after = (
      some u,
      record after { audit = record_event (actor_event actor action user_id []) after.audit },
    )

unfoldable pub update_user_role : String → Role → User → ℕ → AuthStore → Option User × AuthStore
unfolding update_user
update_user_role user_id role actor now s =
    let (updated, after) = update_user user_id (some role) none now s in recorded updated after
  where
    recorded : Option User → AuthStore → Option User × AuthStore
    recorded none after = (none, after)
    recorded (some u) after = (
      some u,
      record after {
        audit =
            record_event (actor_event actor AuditAction.user_role_changed user_id []) after.audit;
      },
    )

abbrev pub role_value : Role → String
role_value Role.viewer = "viewer"
role_value Role.researcher = "researcher"
role_value Role.reviewer = "reviewer"
role_value Role.admin = "admin"

-- The row that `create_user` adds; `user_id` is drawn.
abbrev pub new_user : String → String → String → Role → ℕ → UserWithCredentials
new_user user_id username password_hash role now = record {
  user_id = user_id;
  username = username;
  role = role;
  active = true;
  created_at = now;
  updated_at = now;
  password_hash = password_hash;
  failed_login_attempts = 0;
  locked_until = none;
}

-- UsernameAlreadyExistsError is the error, with the name.
unfoldable pub create_user :
    (user_id username password_hash : String) (role : Role) (actor : User) (now : ℕ)
    → Action AuthStore String User
unfolding find_by_username
create_user user_id username password_hash role actor now s =
    unless_taken (find_by_username username s.users)
  where
    created : UserWithCredentials
    created = new_user user_id username password_hash role now

    metadata : List (String × MetaValue)
    metadata =
        ("username", MetaValue.text username) ∷ ("role", MetaValue.text (role_value role)) ∷ []

    unless_taken : Option UserWithCredentials → Result String User × AuthStore
    unless_taken (some _) = (err username, s)
    unless_taken none = (
      ok (plain_user created),
      record s {
        users = s.users ++ created ∷ [];
        audit = record_event (actor_event actor AuditAction.user_created user_id metadata) s.audit;
      },
    )
