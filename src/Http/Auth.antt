-- ===== src/Http/Auth.antt =====
-- internal/http/auth_middleware.go
pub mod Admitted
pub mod Quiet
use Prim.Native.String.{◌++◌}
use echopay.Common.{
  ℕ, ◌-◌, String, Bool, true, false, Option, none, some, List, [], ◌∷◌, Bytes, ◌==◌, if◌then◌else◌,
}
use echopay.Codec.{Claims}
use echopay.Store.Models.{User, UserStatus, active, locked, suspended}
use echopay.Store.Users.{get_user_by_id}
use echopay.Store.Devices.{get_active_device_session_by_jti, touch_device_session}
use echopay.World.{Error, is_no_rows, error_text}
use echopay.Action.{Action, pure, now, ◌>>=◌, ◌>>◌, ignore, attempt}
use echopay.Auth.Jwt.{parse}
use echopay.Http.{Outcome, passed, refused, refuse, give, Context, next_of}

abbrev pub bearer : Bytes
bearer = b'B' ∷ b'e' ∷ b'a' ∷ b'r' ∷ b'e' ∷ b'r' ∷ b' ' ∷ []

-- strings.HasPrefix and strings.TrimPrefix
abbrev pub without_prefix : Bytes → Bytes → Option Bytes
without_prefix [] text = some text
without_prefix (c ∷ cs) [] = none
without_prefix (c ∷ cs) (d ∷ ds) = if c == d then without_prefix cs ds else none

-- 5 minutes, in nanoseconds
abbrev touch_after : ℕ
touch_after = 300_000_000_000

-- the best effort to note when the session was last seen
unfoldable pub touch : Claims → Action (Unit {0})
touch claims = ignore (do t ← now; touch_device_session claims.jti (t - touch_after))

-- `user.Status == "locked" || user.Status == "suspended"`
abbrev pub admit : Claims → UserStatus → Action (Outcome Context)
admit claims UserStatus.locked = refuse 423 "account locked"
admit claims UserStatus.suspended = refuse 423 "account suspended"
admit claims UserStatus.active = do
  touch claims
  give (record { user_id = claims.user_id; jti = claims.jti })

abbrev pub lookup_refused : Error → Action (Outcome Context)
lookup_refused e =
    if is_no_rows e then refuse 401 "session revoked" else refuse 500 "session lookup failed"

abbrev pub with_token : Option Bytes → Action (Outcome Context)
with_token none = refuse 401 "missing bearer token"
with_token (some token) =
    attempt (parse token) (λ e. refuse 401 (error_text e))
      λ claims. attempt (get_active_device_session_by_jti claims.jti) lookup_refused λ session.
        attempt (get_user_by_id session.user_id) (λ e. refuse 500 "user lookup failed")
          λ user. admit claims user.status

-- AuthMiddleware: what is set on the context for the next handler
unfoldable pub authenticate : Bytes → Action (Outcome Context)
authenticate header = with_token (without_prefix bearer header)

-- a route behind the middleware
unfoldable pub behind_auth :
    {A : Type 0} → Bytes → (Context → Action (Outcome A)) → Action (Outcome A)
behind_auth header next = authenticate header >>= next_of next
