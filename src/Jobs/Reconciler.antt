-- ===== src/Jobs/Reconciler.antt =====
-- internal/jobs/reconciler.go: the sweeps. The two tickers of `Run` are the events `sweep` and
-- `release_due` of System.antt; log lines are left out.
pub mod Settles
use Prim.Native.String.{◌++◌}
use echopay.Common.{ℕ, ◌-◌, String, Bool, not, some, ltb, if◌then◌else◌}
use echopay.Store.Models.{Payment, PaystackStatus, is_success, is_failed, is_blank}
use echopay.Store.Payments.{
  list_stuck_payments, list_payments_for_auto_refund, mark_payment_settled, mark_payment_failed,
  mark_payment_auto_refunded,
}
use echopay.Store.Tokens.{mark_token_settled, mark_token_failed, expire_stale_tokens}
use echopay.Paystack.{Transfer, VerifyResponse}
use echopay.World.{failure}
use echopay.Action.{
  Action, pure, raise, now, ask, ◌>>=◌, ◌>>◌, handle, ignore, require, on_some, when, each,
}
use echopay.Payments.Legs.{deref}
use echopay.Payments.Hold.{release_due_holds}
use echopay.Payments.Undo.{refund_charge}
use echopay.Risk.Limits.{apply_due}

-- ten minutes, in nanoseconds
abbrev pub stuck_after : ℕ
stuck_after = 600_000_000_000

-- 24 hours, in nanoseconds
abbrev pub auto_refund_after : ℕ
auto_refund_after = 86_400_000_000_000

abbrev pub reconcile_batch_size : ℕ
reconcile_batch_size = 50

-- ps.VerifyTransfer and ps.VerifyTransaction read only
unfoldable pub verify_transfer : String → Action Transfer
verify_transfer reference = ask (λ env n. env.verify_transfer n reference)

unfoldable pub verify_transaction : String → Action VerifyResponse
verify_transaction reference = ask (λ env n. env.verify_transaction n reference)

unfoldable pub settle : Payment → Action (Unit {0})
settle p = do
  mark_payment_settled p.id
  on_some p.token_id (λ k. ignore (mark_token_settled k p.id))

unfoldable pub fail_token : Payment → Action (Unit {0})
fail_token p = on_some p.token_id (λ k. ignore (mark_token_failed k))

-- the `switch verified.Status`; any other status is left for the next sweep
unfoldable pub close_transfer : PaystackStatus → Payment → Action (Unit {0})
close_transfer PaystackStatus.success p = settle p
close_transfer PaystackStatus.failed p = do
  mark_payment_failed p.id (some "transfer.failed via reconciler")
  fail_token p
close_transfer PaystackStatus.reversed p = do
  mark_payment_failed p.id (some "transfer.reversed via reconciler")
  fail_token p
close_transfer (PaystackStatus.other s) p = pure tt

unfoldable pub reconcile_transfer : Payment → Action (Unit {0})
reconcile_transfer p = do
  verified ← verify_transfer (deref p.transfer_reference "")
  close_transfer verified.status p

-- the token is marked also where the update of the payment fails
unfoldable pub reconcile_charge : Payment → Action (Unit {0})
reconcile_charge p = do
  verified ← verify_transaction (deref p.charge_reference "")
  when (is_failed verified.status) (do
    handle
        (mark_payment_failed p.id
          (some ("charge failed via reconciler: " ++ verified.gateway_resp)))
        (λ e. fail_token p >> raise e)
    fail_token p)

unfoldable pub age_out : Payment → Action (Unit {0})
age_out p = do
  t ← now
  when (ltb p.updated_at (t - auto_refund_after))
      (mark_payment_failed p.id (some "never executed beyond initiated state") >> pure tt)

unfoldable pub reconcile_one : Payment → Action (Unit {0})
reconcile_one p =
    if not (is_blank p.transfer_reference)
    then reconcile_transfer p
    else if not (is_blank p.charge_reference)
    then reconcile_charge p
    else age_out p

-- whether Paystack says that the transfer has landed; an error counts as no
unfoldable pub has_landed : Payment → Action Bool
has_landed p =
    if is_blank p.transfer_reference
    then pure Bool.false
    else handle
        (do
          verified ← verify_transfer (deref p.transfer_reference "")
          pure (is_success verified.status))
        (λ _. pure Bool.false)

unfoldable pub refund_stuck : Payment → Action (Unit {0})
refund_stuck p = do
  require (not (is_blank p.charge_reference)) (failure "no charge reference to refund")
  refund ← refund_charge (record {
    transaction = deref p.charge_reference "";
    amount = p.amount_kobo;
    merchant_note = "auto-refund: 24h stuck";
    customer_note = "EchoPay NG refund: payment couldn't be delivered";
  })
  mark_payment_auto_refunded p.id (some refund.reference) (some "auto-refunded after 24h stuck")
  fail_token p

unfoldable pub auto_refund_one : Payment → Action (Unit {0})
auto_refund_one p = do landed ← has_landed p; if landed then settle p else refund_stuck p

unfoldable pub attempt_auto_refunds : Action (Unit {0})
attempt_auto_refunds = do
  t ← now
  stuck ← list_payments_for_auto_refund (t - auto_refund_after) reconcile_batch_size
  each stuck auto_refund_one

-- where the list cannot be read the sweep ends
unfoldable pub sweep : Action (Unit {0})
sweep = do
  ignore (apply_due reconcile_batch_size)
  t ← now
  stuck ← list_stuck_payments (t - stuck_after) reconcile_batch_size
  each stuck reconcile_one
  ignore attempt_auto_refunds
  ignore expire_stale_tokens

-- `releaseDueHolds`
unfoldable pub release_due : Action (Unit {0})
release_due = ignore (release_due_holds reconcile_batch_size)
