-- ===== src/Auth/Sessions/Tests.antt =====
-- Sessions at the table of users of Auth/Service/Tests.antt.
use zero_shield.Base.{◌+◌, ◌≡◌, refl, false, none, some, [], ◌∷◌, leb, str_eq, if◌then◌else◌}
use zero_shield.Auth.Accounts.{find_by_username, find_user, logged_in, amend_user}
use zero_shield.Base.Effects.{err}
use zero_shield.Audit.{Role}
use zero_shield.Auth.Service.{plain_user, session_ttl, login, login_found, admit, new_session}
use zero_shield.Auth.Service.Tests.{ann, start, digest}
use zero_shield.Auth.Sessions.{
  find_session, get_session_with_user, get_user_for_session, touch_session, logout, set_user_active,
  update_user, update_user_role, create_user, delete_session,
}
use zero_shield.Auth.Sessions.Opened.{get_user_for_session-login}
use zero_shield.Auth.Sessions.Revoked.{get_user_for_session-deactivated}

get_user_for_session-login_example :
    let (r, after) = login str_eq digest "ann" "secret" "t-1" none none 100 start in
    (get_user_for_session digest "t-1" 50000 after).0
    ≡ (if leb (100 + session_ttl) 50000 then none else some (plain_user (logged_in 100 ann)))
unfolding find_by_username find_user find_session
get_user_for_session-login_example =
    get_user_for_session-login str_eq digest "ann" "secret" "t-1" none none 100 50000 ann start refl
      refl refl refl refl refl

logged_out :
    (get_user_for_session digest "old" 80 (logout digest "old" (some (plain_user ann)) start)).0
    ≡ none
unfolding get_user_for_session get_session_with_user find_session delete_session logout
logged_out = refl

-- Deactivating another user leaves the session of this one, and says nothing against it.
get_user_for_session-deactivated_example : str_eq "u-1" "u-2" ≡ false
unfolding get_user_for_session get_session_with_user find_session find_user touch_session
    set_user_active update_user amend_user
get_user_for_session-deactivated_example =
    get_user_for_session-deactivated digest "old" "u-2" (plain_user ann) 70 80 start
      (plain_user ann) refl

deactivated :
    (get_user_for_session digest "old" 80
      (set_user_active "u-1" false (plain_user ann) 70 start).1).0
    ≡ none
unfolding get_user_for_session get_session_with_user find_session find_user set_user_active
    update_user amend_user
deactivated = refl

expired : (get_user_for_session digest "old" 90 start) ≡ (none, record start { sessions = [] })
unfolding get_user_for_session get_session_with_user find_session find_user delete_session
expired = refl

missing : (update_user_role "u-3" Role.viewer (plain_user ann) 70 start) ≡ (none, start)
unfolding update_user_role update_user find_user
missing = refl

taken : create_user "u-3" "ann" "hash" Role.viewer (plain_user ann) 70 start ≡ (err "ann", start)
unfolding create_user find_by_username
taken = refl

-- A user that was created logs in with its password; the expired session goes.
created :
    let (_, after) = create_user "u-3" "eve" "pass" Role.viewer (plain_user ann) 70 start in
    (login str_eq digest "eve" "pass" "t-3" none none 100 after).1.sessions
    ≡ new_session "t-3" "u-3" none none 100 ∷ []
unfolding create_user find_by_username login login_found admit
created = refl
