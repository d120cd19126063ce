-- ===== src/Payments/Checks.antt =====
-- internal/payments/service.go: what is checked before any money moves.
pub mod Sound
use echopay.Common.{
  ℕ, ◌+◌, String, Bool, true, false, not, ◌&&◌, Option, none, some, ltb, ◌==◌, str_eq,
  if◌then◌else◌,
}
use echopay.Store.Models.{User, Mandate, is_active, is_blank}
use echopay.Store.Payments.{get_payment_by_idempotency_key}
use echopay.Store.Users.{get_mandate_by_id, sum_user_sent_last_24h, int64_limit}
use echopay.World.{
  is_no_rows, wrapped, mandate_not_owned, mandate_not_active, tx_limit_exceeded,
  daily_limit_exceeded,
}
use echopay.Action.{Action, pure, raise, ◌>>=◌, ◌>>◌, handle, within, require}
use echopay.Risk.Trusted.{effective_cap}
use echopay.Payments.Types.{Receipt}

unfoldable pub idempotent_return : String → Action (Option Receipt)
idempotent_return key =
    handle
      (do
        existing ← get_payment_by_idempotency_key key
        pure (some (record { payment = existing; token = none })))
      (λ e. if is_no_rows e then pure none else raise (wrapped "idempotency lookup" e))

unfoldable pub validated_mandate : ℕ → ℕ → Action Mandate
validated_mandate mandate_id user_id = do
  mandate ← within "load mandate" (get_mandate_by_id mandate_id)
  require (mandate.user_id == user_id) mandate_not_owned
  require (is_active mandate.status) mandate_not_active
  pure mandate

abbrev pub has_bank_details : User → Bool
has_bank_details u = not (is_blank u.nuban) && not (is_blank u.bank_code)

-- `sent + amount > limit` on int64: past the largest int64 the sum is negative, and the test fails
abbrev pub exceeds_daily : ℕ → ℕ → ℕ → Bool
exceeds_daily sent amount limit =
    let total = sent + amount in if ltb total int64_limit then ltb limit total else false

unfoldable pub enforce_limits : User → ℕ → ℕ → Action (Unit {0})
enforce_limits sender receiver amount = do
  effective_tx_cap ← effective_cap sender.id receiver sender.per_tx_limit_kobo
  require (not (ltb effective_tx_cap amount)) tx_limit_exceeded
  sent ← within "sum sent" (sum_user_sent_last_24h sender.id)
  require (not (exceeds_daily sent amount sender.per_day_limit_kobo)) daily_limit_exceeded
