-- ===== src/Auth/Accounts.antt =====
-- The table of users in src/zeroshield/auth/repository.py, as the list of its rows.
use zero_shield.Base.{
  ℕ, ◌+◌, String, ◌≡◌, refl, sym, true, false, Option, none, some, List, [], ◌∷◌, if◌then◌else◌,
  str_eq, eq_refl, eq_iff, arith, Bool-cases, inl, inr,
}
use zero_shield.Auth.Models.{UserWithCredentials}

-- `get_user_by_username`: usernames are unique.
unfoldable pub find_by_username : String → List UserWithCredentials → Option UserWithCredentials
find_by_username name [] = none
find_by_username name (u ∷ us) =
    let below = find_by_username name us in if str_eq u.username name then some u else below

-- `session.get(UserORM, user_id)`
unfoldable pub find_user : String → List UserWithCredentials → Option UserWithCredentials
find_user id [] = none
find_user id (u ∷ us) = let below = find_user id us in if str_eq u.user_id id then some u else below

-- The row with that key, changed
unfoldable pub amend_user :
    String
    → (UserWithCredentials → UserWithCredentials)
    → List UserWithCredentials
    → List UserWithCredentials
amend_user id f [] = []
amend_user id f (u ∷ us) =
    let below = amend_user id f us in if str_eq u.user_id id then f u ∷ us else u ∷ below

abbrev pub or_lock : Option ℕ → Option ℕ → Option ℕ
or_lock none old = old
or_lock (some t) old = some t

-- What `record_login_failure` and `record_login_success` write in a row
abbrev pub failed_once : Option ℕ → ℕ → UserWithCredentials → UserWithCredentials
failed_once lock_until now u = record u {
  failed_login_attempts = u.failed_login_attempts + 1;
  locked_until = or_lock lock_until u.locked_until;
  updated_at = now;
}

abbrev pub logged_in : ℕ → UserWithCredentials → UserWithCredentials
logged_in now u = record u { failed_login_attempts = 0; locked_until = none; updated_at = now }

-- What the look for a username finds has that username
find_by_username-username :
    (name : String) (us : List UserWithCredentials) (u : UserWithCredentials)
    → find_by_username name us ≡ some u
    → str_eq u.username name ≡ true
unfolding find_by_username
find_by_username-username name [] u h = cc
find_by_username-username name (v ∷ us) u h = elim (Bool-cases (str_eq v.username name)) [
  | inl same ↦ let found : some v ≡ some u = rw same at h in let eq : v ≡ u = cc in rw (sym eq) same
  | inr other ↦ find_by_username-username name us u (rw other at h)
]

-- A row that is the first of its username and of its id is still found by its username when it
-- is changed under its id.
pub find_by_username-amend_user :
    (name : String) (f : UserWithCredentials → UserWithCredentials) (us : List UserWithCredentials)
    (u : UserWithCredentials)
    → (f u).username ≡ u.username
    → find_by_username name us ≡ some u
    → find_user u.user_id us ≡ some u
    → find_by_username name (amend_user u.user_id f us) ≡ some (f u)
unfolding find_by_username find_user amend_user
find_by_username-amend_user name f [] u kept by_name by_id = cc
find_by_username-amend_user name f (v ∷ us) u kept by_name by_id =
    let named = find_by_username-username name (v ∷ us) u by_name in
    elim (Bool-cases (str_eq v.user_id u.user_id)) [
      | inl same ↦
          let found : some v ≡ some u = rw same at by_id in
          let eq : v ≡ u = cc in
          let renamed : str_eq (f v).username name ≡ true = rw (eq, kept) named in
          rw (same, renamed) (rw eq refl)
      | inr other ↦ elim (Bool-cases (str_eq v.username name)) [
        | inl first ↦
            let found : some v ≡ some u = rw first at by_name in
            let eq : v ≡ u = cc in
            let id : str_eq v.user_id u.user_id ≡ true = rw eq (eq_refl u.user_id) in cc
        | inr later ↦
            rw (other, later)
              (find_by_username-amend_user name f us u kept (rw later at by_name)
                (rw other at by_id))
      ]
    ]

pub find_user-user_id :
    (id : String) (us : List UserWithCredentials) (u : UserWithCredentials)
    → find_user id us ≡ some u
    → str_eq u.user_id id ≡ true
unfolding find_user
find_user-user_id id [] u h = cc
find_user-user_id id (v ∷ us) u h = elim (Bool-cases (str_eq v.user_id id)) [
  | inl same ↦ let found : some v ≡ some u = rw same at h in let eq : v ≡ u = cc in rw (sym eq) same
  | inr other ↦ find_user-user_id id us u (rw other at h)
]

-- A row that is changed under its id, and keeps it, is found under it.
pub find_user-amend_user :
    (f : UserWithCredentials → UserWithCredentials) (us : List UserWithCredentials)
    (u : UserWithCredentials)
    → (f u).user_id ≡ u.user_id
    → find_user u.user_id us ≡ some u
    → find_user u.user_id (amend_user u.user_id f us) ≡ some (f u)
unfolding find_user amend_user
find_user-amend_user f [] u kept h = cc
find_user-amend_user f (v ∷ us) u kept h = elim (Bool-cases (str_eq v.user_id u.user_id)) [
  | inl same ↦
      let found : some v ≡ some u = rw same at h in
      let eq : v ≡ u = cc in
      let id : str_eq (f v).user_id u.user_id ≡ true = rw (eq, kept) (eq_refl u.user_id) in
      rw (same, id) (rw eq refl)
  | inr other ↦ rw (other, other) (find_user-amend_user f us u kept (rw other at h))
]

-- When the row with an id is deactivated, the user found under any id is another or inactive.
pub find_user-deactivated :
    (id id1 : String) (f : UserWithCredentials → UserWithCredentials)
    (us : List UserWithCredentials) (w : UserWithCredentials)
    → ((u : UserWithCredentials) → ((f u).user_id ≡ u.user_id) × ((f u).active ≡ false))
    → find_user id1 (amend_user id f us) ≡ some w
    → str_eq w.user_id id ≡ true
    → w.active ≡ false
unfolding find_user amend_user
find_user-deactivated id id1 f [] w off h same = cc
find_user-deactivated id id1 f (v ∷ us) w off h same =
    let (kept, inactive) = off v in
    elim (Bool-cases (str_eq v.user_id id)) [
      | inl this ↦
          let h1 : find_user id1 (f v ∷ us) ≡ some w = rw this at h in
          elim (Bool-cases (str_eq (f v).user_id id1)) [
            | inl asked ↦
                let found : some (f v) ≡ some w = rw asked at h1 in
                let eq : f v ≡ w = cc in rw (sym eq) inactive
            | inr later ↦
                let named = find_user-user_id id1 us w (rw later at h1) in
                let clash : str_eq v.user_id id1 ≡ false = rw (sym kept) later in
                ground (
                  arith,
                  eq_iff v.user_id id,
                  eq_iff w.user_id id,
                  eq_iff w.user_id id1,
                  eq_iff v.user_id id1,
                )
          ]
      | inr that ↦
          let h1 : find_user id1 (v ∷ amend_user id f us) ≡ some w = rw that at h in
          elim (Bool-cases (str_eq v.user_id id1)) [
            | inl asked ↦
                let found : some v ≡ some w = rw asked at h1 in
                let eq : v ≡ w = cc in
                let clash : str_eq w.user_id id ≡ false = rw (sym eq) that in cc
            | inr later ↦ find_user-deactivated id id1 f us w off (rw later at h1) same
          ]
    ]

pub find_user-other :
    (id id1 : String) (us : List UserWithCredentials) (w : UserWithCredentials)
    → find_user id us ≡ none
    → find_user id1 us ≡ some w
    → str_eq w.user_id id ≡ false
find_user-other id id1 us w missing found = elim (Bool-cases (str_eq w.user_id id)) [
  | inr other ↦ other
  | inl same ↦
      let named = find_user-user_id id1 us w found in
      let ids : id1 ≡ id = ground (arith, eq_iff w.user_id id, eq_iff w.user_id id1) in
      let clash : find_user id us ≡ some w = rw (sym ids) found in cc
]
