-- ===== src/Store/Models/Sessions.antt =====
-- internal/store/models.go: the rows of sign-in and of push notifications.
use echopay.Common.{ℕ, Option, String}

pub record OtpRequest : Type 0 where
  pub id : ℕ
  pub phone : String
  pub code_hash : String
  pub purpose : String
  pub attempts : ℕ
  pub max_attempts : ℕ
  pub expires_at : ℕ
  pub verified_at : Option ℕ
  pub created_at : ℕ

pub record DeviceSession : Type 0 where
  pub id : ℕ
  pub user_id : ℕ
  pub jti : ℕ
  pub fingerprint : Option String
  pub model : Option String
  pub os_name : Option String
  pub os_version : Option String
  pub app_version : Option String
  pub last_seen_at : ℕ
  pub created_at : ℕ
  pub revoked_at : Option ℕ

-- platform IN ('ios', 'android')
pub data Platform : Type 0 where
  ios android : Platform

pub record PushToken : Type 0 where
  pub id : ℕ
  pub user_id : ℕ
  pub device_session_id : Option ℕ
  pub fcm_token : String
  pub platform : Platform
  pub last_seen_at : ℕ
  pub created_at : ℕ
  pub revoked_at : Option ℕ
