-- ===== src/Http.antt =====
-- internal/http: the middleware of signed-in requests and the pages of devices and of the account. A
-- request is what the handler reads of it; a handler gives the value that it renders as JSON, or a
-- status and a message.
pub mod Auth
pub mod RateLimit
pub mod Webhooks
pub mod Devices
pub mod Me
pub mod Answers
pub mod Locked
pub mod Revoked
use echopay.Common.{ℕ, String, Bool, Option, none, some, if◌then◌else◌, ◌==◌}
use echopay.Action.{Action, pure, ◌>>=◌}

-- echo.NewHTTPError(status, message)
pub data Outcome (A : Type 0) : Type 0 where
  passed : A → Outcome A
  refused : ℕ → String → Outcome A

unfoldable pub refuse : {A : Type 0} → ℕ → String → Action (Outcome A)
refuse status message = pure (refused status message)

unfoldable pub give : {A : Type 0} → A → Action (Outcome A)
give a = pure (passed a)

-- what the middleware sets on the context: the user and the session; 0 is uuid.Nil
pub record Context : Type 0 where
  pub user_id : ℕ
  pub jti : ℕ

module _ {A : Type 0} where
  -- `return next(c)`
  abbrev pub next_of : (Context → Action (Outcome A)) → Outcome Context → Action (Outcome A)
  next_of next (passed c) = next c
  next_of next (refused status message) = refuse status message

  -- `if userID == uuid.Nil { return 401 }`
  unfoldable pub for_user : Context → Action (Outcome A) → Action (Outcome A)
  for_user c m = if c.user_id == 0 then refuse 401 "no user" else m

  -- `uuid.Parse`, or a 400 with the message
  abbrev pub with_id : String → Option ℕ → (ℕ → Action (Outcome A)) → Action (Outcome A)
  with_id message none page = refuse 400 message
  with_id message (some id) page = page id
