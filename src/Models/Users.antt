-- ===== src/Models/Users.antt =====
-- models/user.py, and the documents of `password_reset_tokens`.
use trust_aware_self_healing.Shared.{ℕ, String, Bool, Option}

pub data UserRole : Type 0 where
  admin operator : UserRole

pub data AuthProvider : Type 0 where
  local google : AuthProvider

-- A document of `users`. A Google account has no `password_hash`, any other no `google_sub`.
pub record User : Type 0 where
  pub id : ℕ
  pub full_name : String
  pub email : String
  pub password_hash : Option String
  pub role : UserRole
  pub email_verified : Bool
  pub auth_provider : AuthProvider
  pub google_sub : Option String
  pub created_at : ℕ
  pub updated_at : ℕ

pub record ResetToken : Type 0 where
  pub id : ℕ
  pub user_id : ℕ
  pub token_hash : String
  pub expires_at : ℕ
  pub used : Bool
  pub created_at : ℕ

pub record UserRegister : Type 0 where
  pub full_name : String
  pub email : String
  pub password : String

pub record UserResponse : Type 0 where
  pub user_id : String
  pub full_name : String
  pub email : String
  pub role : UserRole
  pub email_verified : Bool
  pub auth_provider : AuthProvider
  pub created_at : ℕ
  pub updated_at : ℕ

pub record TokenResponse : Type 0 where
  pub access_token : String
  pub expires_in_minutes : ℕ
  pub user : UserResponse
