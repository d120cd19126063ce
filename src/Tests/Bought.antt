-- ===== src/Tests/Bought.antt =====
-- A payment that is bought with a token.
use echopay.Common.{◌+◌, ◌≡◌, refl, none, some}
use echopay.Store.Models.{Payment, PaymentStatus, PaystackStatus, Token, TokenStatus}
use echopay.Store.Query.{select_one}
use echopay.Store.Users.{
  get_user_by_id, get_mandate_by_id, sum_user_sent_last_24h, get_trusted_merchant_cap,
}
use echopay.Store.Payments.{
  create_payment, get_payment_by_idempotency_key, update_payments, update_payment_charge,
  update_payment_transfer, mark_payment_settled,
}
use echopay.Store.Records.{insert_ledger_entry, insert_audit_event}
use echopay.Store.Tokens.{get_token_by_code, claim_token, update_tokens, mark_token_settled}
use echopay.World.{ok}
use echopay.Action.{
  when, send, uuid_string, modify, ignore, on_some, query, pure, raise, ◌>>=◌, handle, within,
  require, rows_or, or_else,
}
use echopay.Audit.{record_event}
use echopay.Push.{notify_payment_received, is_enabled}
use echopay.Ledger.{record_entry, record_payment_pair}
use echopay.Tokens.{claim}
use echopay.Risk.Trusted.{effective_cap}
use echopay.Payments.Types.{Receipt}
use echopay.Payments.Checks.{idempotent_return, validated_mandate, enforce_limits}
use echopay.Payments.Legs.{
  charge, charge_authorization, transfer, create_recipient, initiate_transfer,
}
use echopay.Payments.Orchestrate.{audit_side, orchestrate}
use echopay.Payments.Create.{or_fail_token, pay_token, create_fresh, create}
use echopay.Payments.Create.Bought.{Bought, create-Bought}
use echopay.Tests.Data.{token, start, held_payment, empty_world, sunny, pay_now}

abbrev claimed_token : Token
claimed_token = record token {
  status = TokenStatus.claimed;
  claimed_by_user_id = some 1;
  claimed_at = some (start + 4_000_000_000);
  updated_at = start + 4_000_000_000;
}

abbrev bought_row : Payment
bought_row = record held_payment {
  id = 108;
  idempotency_key = "key-1";
  charge_reference = some "CHG_id";
  charge_status = some PaystackStatus.success;
  transfer_reference = some "TXF_id";
  transfer_status = some PaystackStatus.success;
  status = PaymentStatus.settled;
  created_at = start + 8_000_000_000;
  updated_at = start + 16_000_000_000;
  settled_at = some (start + 16_000_000_000);
  hold_expires_at = none;
}

abbrev receipt : Receipt
receipt = record { payment = bought_row; token = some claimed_token }

purchase_goes_through :
    create pay_now sunny empty_world ≡ (ok receipt, (create pay_now sunny empty_world).1)
unfolding create create_fresh pay_token or_fail_token idempotent_return
    get_payment_by_idempotency_key validated_mandate get_mandate_by_id get_user_by_id claim
    get_token_by_code claim_token enforce_limits effective_cap get_trusted_merchant_cap
    sum_user_sent_last_24h create_payment orchestrate audit_side charge charge_authorization
    transfer create_recipient initiate_transfer record_payment_pair record_entry insert_ledger_entry
    update_payment_charge update_payment_transfer mark_payment_settled update_payments
    mark_token_settled update_tokens notify_payment_received is_enabled when record_event
    insert_audit_event select_one send uuid_string modify query ◌>>=◌ handle within rows_or ignore
    on_some or_else require pure raise
purchase_goes_through = refl

create-Bought_example :
    Bought sunny pay_now empty_world receipt (create pay_now sunny empty_world).1
create-Bought_example =
    create-Bought pay_now sunny empty_world (create pay_now sunny empty_world).1 receipt refl
      purchase_goes_through
