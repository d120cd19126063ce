-- ===== src/Tests/Repaid.antt =====
-- A settled payment of which a part is refunded.
use echopay.Common.{◌∷◌, [], ◌+◌, ◌≡◌, refl, none, some, pos}
use echopay.Store.Models.{Payment, PaymentStatus, PaystackStatus, Mandate}
use echopay.Store.Query.{select_one}
use echopay.Store.Users.{
  get_user_by_id, get_mandate_by_id, sum_user_sent_last_24h, get_trusted_merchant_cap,
}
use echopay.Store.Payments.{
  create_payment, get_payment_by_idempotency_key, update_payments, update_payment_charge,
  update_payment_transfer, mark_payment_settled, get_payment_by_id,
}
use echopay.Store.Records.{insert_ledger_entry, insert_audit_event}
use echopay.World.{World, ok}
use echopay.Action.{
  when, send, uuid_string, modify, ignore, on_some, query, pure, raise, ◌>>=◌, handle, within,
  require, rows_or, or_else,
}
use echopay.Audit.{record_event}
use echopay.Push.{notify_payment_received, is_enabled}
use echopay.Ledger.{record_entry, record_payment_pair}
use echopay.Risk.Trusted.{effective_cap}
use echopay.Payments.Types.{Receipt, RefundRequest}
use echopay.Payments.Checks.{idempotent_return, validated_mandate, enforce_limits}
use echopay.Payments.Legs.{
  charge, charge_authorization, transfer, create_recipient, initiate_transfer,
}
use echopay.Payments.Orchestrate.{audit_side, orchestrate}
use echopay.Payments.Create.Repaid.{Repaid, refund-Repaid}
use echopay.Tests.Data.{mandate, settled_payment, start, held_payment, empty_world, sunny}
use echopay.Payments.Create.{pay_back, refund_fresh, refund}

abbrev bob_mandate : Mandate
bob_mandate = record mandate { id = 6; user_id = 2 }

abbrev settled_before : World
settled_before = record empty_world {
  mandates = bob_mandate ∷ mandate ∷ [];
  payments = settled_payment ∷ [];
}

abbrev give_back : RefundRequest
give_back = record {
  original_payment_id = 10;
  refunder_user_id = 2;
  mandate_id = 6;
  amount_kobo = pos 20_000;
  idempotency_key = "key-2";
}

abbrev refund_row : Payment
refund_row = record held_payment {
  id = 107;
  token_id = none;
  sender_user_id = 2;
  receiver_user_id = 1;
  sender_mandate_id = 6;
  amount_kobo = 20_000;
  idempotency_key = "key-2";
  charge_reference = some "CHG_id";
  charge_status = some PaystackStatus.success;
  transfer_reference = some "TXF_id";
  transfer_status = some PaystackStatus.success;
  status = PaymentStatus.settled;
  created_at = start + 7_000_000_000;
  updated_at = start + 15_000_000_000;
  settled_at = some (start + 15_000_000_000);
  refunds_payment_id = some 10;
  hold_expires_at = none;
}

abbrev refund_receipt : Receipt
refund_receipt = record { payment = refund_row; token = none }

refund_goes_through :
    refund give_back sunny settled_before
    ≡ (ok refund_receipt, (refund give_back sunny settled_before).1)
unfolding refund refund_fresh pay_back get_payment_by_id idempotent_return
    get_payment_by_idempotency_key validated_mandate get_mandate_by_id get_user_by_id enforce_limits
    effective_cap get_trusted_merchant_cap sum_user_sent_last_24h create_payment orchestrate
    audit_side charge charge_authorization transfer create_recipient initiate_transfer
    record_payment_pair record_entry insert_ledger_entry update_payment_charge
    update_payment_transfer mark_payment_settled update_payments notify_payment_received is_enabled
    when record_event insert_audit_event select_one send uuid_string modify query ◌>>=◌ handle
    within rows_or ignore on_some or_else require pure raise
refund_goes_through = refl

refund-Repaid_example :
    Repaid sunny give_back settled_before refund_receipt (refund give_back sunny settled_before).1
refund-Repaid_example =
    refund-Repaid give_back sunny settled_before (refund give_back sunny settled_before).1
      refund_receipt refl refund_goes_through
