-- ===== src/Auth/Models.antt =====
-- src/zeroshield/auth/models.py.
use zero_shield.Base.{ℕ, String, Bool, true, false, Option}
use zero_shield.Audit.{Role}

pub record User : Type 0 where
  pub user_id : String
  pub username : String
  pub role : Role
  pub active : Bool
  pub created_at : ℕ
  pub updated_at : ℕ

-- A row of the table of users: UserWithCredentials.
pub record UserWithCredentials : Type 0 where
  pub user_id : String
  pub username : String
  pub role : Role
  pub active : Bool
  pub created_at : ℕ
  pub updated_at : ℕ
  pub password_hash : String
  pub failed_login_attempts : ℕ
  pub locked_until : Option ℕ

-- `session_id` is the digest of the raw token.
pub record SessionRecord : Type 0 where
  pub session_id : String
  pub user_id : String
  pub created_at : ℕ
  pub expires_at : ℕ
  pub last_used_at : ℕ
  pub ip_address : Option String
  pub user_agent : Option String

abbrev pub is_admin : Role → Bool
is_admin Role.admin = true
is_admin _ = false
