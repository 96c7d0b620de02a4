-- ===== src/Auth/Sessions/Revoked.antt =====
-- When a session stops being honoured by `get_user_for_session`.
use zero_shield.Base.{
  ℕ, String, ◌≡◌, refl, sym, ap, inl, inr, true, false, Bool-cases, Option, Option-cases, none,
  some, List, [], ◌∷◌, leb, str_eq,
}
use zero_shield.Auth.Accounts.{find_user, find_user-deactivated, find_user-other}
use zero_shield.Auth.Models.{User, UserWithCredentials, SessionRecord}
use zero_shield.Auth.Service.{AuthStore, plain_user}
use zero_shield.Auth.Sessions.{
  find_session, delete_session, get_session_with_user, get_user_for_session, logout, update_user,
  set_user_active,
}

-- A session that was deleted is not found, and every other one is found as before.
find_session-delete_session :
    (id : String) (rs : List SessionRecord) → find_session id (delete_session id rs) ≡ none
unfolding find_session delete_session
find_session-delete_session id [] = refl
find_session-delete_session id (r ∷ rs) =
    let below = find_session-delete_session id rs in
    elim (Bool-cases (str_eq r.session_id id)) [
      | inl same ↦ rw same below
      | inr other ↦ rw (other, other) below
    ]

-- After a user logged out, the token is no longer honoured, at any time.
pub get_user_for_session-logout :
    (digest : String → String) (raw_token : String) (actor : Option User) (now : ℕ) (s : AuthStore)
    → let after = logout digest raw_token actor s in
      get_user_for_session digest raw_token now after ≡ (none, after)
unfolding get_user_for_session get_session_with_user logout
get_user_for_session-logout digest raw_token none now s =
    rw (find_session-delete_session (digest raw_token) s.sessions) refl
get_user_for_session-logout digest raw_token (some actor) now s =
    rw (find_session-delete_session (digest raw_token) s.sessions) refl

-- Whose session it is when a token is honoured
get_user_for_session-honours :
    (digest : String → String) (raw_token : String) (now : ℕ) (s : AuthStore) (w : User)
    → (get_user_for_session digest raw_token now s).0 ≡ some w
    → (r : SessionRecord) × (u : UserWithCredentials) × (find_session (digest raw_token) s.sessions
        ≡ some r)
      × (leb r.expires_at now ≡ false)
      × (find_user r.user_id s.users ≡ some u)
      × (u.active ≡ true)
      × (u.user_id ≡ w.user_id)
unfolding get_user_for_session get_session_with_user
get_user_for_session-honours digest raw_token now s w h =
    elim (Option-cases (find_session (digest raw_token) s.sessions)) [
      | inl missing ↦ let no : none ≡ some w = rw missing at h in cc
      | inr (r, found) ↦ elim (Option-cases (find_user r.user_id s.users)) [
        | inl gone ↦ let no : none ≡ some w = rw (found, gone) at h in cc
        | inr (u, owner) ↦ elim (Bool-cases (leb r.expires_at now)) [
          | inl expired ↦ let no : none ≡ some w = rw (found, owner, expired) at h in cc
          | inr fresh ↦ elim (Bool-cases u.active) [
            | inr inactive ↦ let no : none ≡ some w = rw (found, owner, fresh, inactive) at h in cc
            | inl active ↦
                let yes : some (record (plain_user u) { active = true }) ≡ some w =
                  rw (found, owner, fresh, active) at h in
                let eq : record (plain_user u) { active = true } ≡ w = cc in
                (r, u, found, fresh, owner, active, ap (λ x. x.user_id) eq)
          ]
        ]
      ]
    ]

-- The users after one was deactivated
set_user_active-users :
    (user_id : String) (actor : User) (now : ℕ) (s : AuthStore) (id : String)
    (w : UserWithCredentials)
    → find_user id (set_user_active user_id false actor now s).1.users ≡ some w
    → w.active ≡ true
    → str_eq w.user_id user_id ≡ false
unfolding set_user_active update_user
set_user_active-users user_id actor now s id w found active =
    elim (Option-cases (find_user user_id s.users)) [
      | inl missing ↦ find_user-other user_id id s.users w missing (rw missing at found)
      | inr (u, present) ↦ elim (Bool-cases (str_eq w.user_id user_id)) [
        | inr other ↦ other
        | inl same ↦
            let inactive =
              find_user-deactivated user_id id _ s.users w (λ _. (refl, refl)) (rw present at found)
                same in
            cc
      ]
    ]

-- When an administrator has deactivated a user, no token that is presented afterwards is honoured
-- as that user's, its sessions that are still open included.
pub get_user_for_session-deactivated :
    (digest : String → String) (raw_token : String) (user_id : String) (actor : User)
    (now later : ℕ) (s : AuthStore) (w : User)
    → (get_user_for_session digest raw_token later (set_user_active user_id false actor now s).1).0
      ≡ some w
    → str_eq w.user_id user_id ≡ false
get_user_for_session-deactivated digest raw_token user_id actor now later s w h =
    let (r, u, session, fresh, owner, active, eq) =
      get_user_for_session-honours digest raw_token later
        (set_user_active user_id false actor now s).1 w h in
    rw (sym eq) (set_user_active-users user_id actor now s r.user_id u owner active)
