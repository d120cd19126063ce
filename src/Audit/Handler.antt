-- ===== src/Audit/Handler.antt =====
-- internal/audit/handler.go: the page of a user's audit trail.
use echopay.Common.{List, ℤ, int32}
use echopay.Store.Models.{AuditEvent}
use echopay.World.{error_text}
use echopay.Action.{Action, attempt}
use echopay.Http.{Outcome, refuse, give, Context, for_user}
use echopay.Audit.{list_events}

-- the limit and the offset are what strconv.Atoi read
unfoldable pub audit_page : Context → ℤ → ℤ → Action (Outcome (List AuditEvent))
audit_page c limit offset = for_user c (
    attempt (list_events c.user_id (int32 limit) (int32 offset)) (λ e. refuse 500 (error_text e))
      give)
