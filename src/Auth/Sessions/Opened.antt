-- ===== src/Auth/Sessions/Opened.antt =====
-- How long the session of a login lasts.
use zero_shield.Base.{
  ℕ, ◌+◌, String, ◌≡◌, refl, inl, inr, Bool, true, false, Bool-cases, Option, none, some, List, [],
  ◌∷◌, ◌++◌, leb, keep, str_eq, eq_refl, if◌then◌else◌,
}
use zero_shield.Auth.Accounts.{find_by_username, find_user, logged_in, find_user-amend_user}
use zero_shield.Auth.Models.{UserWithCredentials, SessionRecord}
use zero_shield.Auth.Service.{
  AuthStore, plain_user, is_locked, session_ttl, new_session, open_session, admit, login_found,
  login,
}
use zero_shield.Auth.Sessions.{find_session, get_session_with_user, get_user_for_session}

find_session-keep :
    (id : String) (p : SessionRecord → Bool) (r : SessionRecord) (rs : List SessionRecord)
    → find_session id rs ≡ none
    → str_eq r.session_id id ≡ true
    → find_session id (keep p rs ++ r ∷ []) ≡ some r
unfolding find_session
find_session-keep id p r [] h own = rw own refl
find_session-keep id p r (q ∷ rs) h own = elim (Bool-cases (str_eq q.session_id id)) [
  | inl same ↦ let found : some q ≡ none = rw same at h in cc
  | inr other ↦
      let below = find_session-keep id p r rs (rw other at h) own in
      elim (Bool-cases (p q)) [ inl kept ↦ rw (kept, other) below | inr dropped ↦ rw dropped below ]
]

find_session-open_session :
    (id user_id : String) (ip_address user_agent : Option String) (now : ℕ)
    (rs : List SessionRecord)
    → find_session id rs ≡ none
    → let r = new_session id user_id ip_address user_agent now in
      find_session id (open_session r now rs) ≡ some r
find_session-open_session id user_id ip_address user_agent now rs h =
    find_session-keep id _ (new_session id user_id ip_address user_agent now) rs h (eq_refl id)

module _ (verify : String → String → Bool) (digest : String → String) where
  -- The token of a login that succeeds, if its digest is new, is honoured as that user's for 12
  -- hours and no longer, when nothing else happens meanwhile.
  pub get_user_for_session-login :
      (name password raw_token : String) (ip_address user_agent : Option String) (now later : ℕ)
      (u : UserWithCredentials) (s : AuthStore)
      → find_by_username name s.users ≡ some u
      → find_user u.user_id s.users ≡ some u
      → is_locked u.locked_until now ≡ false
      → verify password u.password_hash ≡ true
      → u.active ≡ true
      → find_session (digest raw_token) s.sessions ≡ none
      → let (r, after) = login verify digest name password raw_token ip_address user_agent now s in
        (get_user_for_session digest raw_token later after).0
        ≡ (if leb (now + session_ttl) later then none else some (plain_user (logged_in now u)))
  unfolding get_user_for_session get_session_with_user login login_found admit
  get_user_for_session-login name password raw_token ip_address user_agent now later u s found by_id
        free right active new =
      let session =
        find_session-open_session (digest raw_token) u.user_id ip_address user_agent now s.sessions
          new in
      let owner = find_user-amend_user (logged_in now) s.users u refl by_id in
      elim (Bool-cases (leb (now + session_ttl) later)) [
        | inl expired ↦ rw (found, free, right, active, session, owner, expired) refl
        | inr fresh ↦ rw (found, free, right, active, session, owner, fresh, active) refl
      ]
