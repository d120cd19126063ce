-- ===== src/Payments/Legs.antt =====
-- internal/payments/service.go: the debit of the sender, the credit of the receiver, and what is
-- written when a step fails.
use Prim.Native.String.{◌++◌}
use echopay.Common.{String, not, Option, none, some, [], ◌∷◌, str_eq, if◌then◌else◌}
use echopay.Store.Models.{
  User, Mandate, Token, Payment, PaymentStatus, number, text, is_success, is_blank, status_text,
}
use echopay.Store.Payments.{update_payment_charge, update_payment_transfer, mark_payment_failed}
use echopay.Store.Tokens.{mark_token_failed}
use echopay.Paystack.{
  ChargeAuthorizationRequest, ChargeAuthorizationResponse, CreateRecipientRequest, Recipient,
  TransferRequest, Transfer,
}
use echopay.World.{failure, charged, recipient_made, transferred}
use echopay.Action.{Action, raise, send, uuid_string, ◌>>=◌, ◌>>◌, within, require, ignore, on_some}
use echopay.Audit.{record_event}

abbrev pub deref : Option String → String → String
deref none fallback = fallback
deref (some s) fallback = s

-- ps.ChargeAuthorization, ps.CreateRecipient and ps.InitiateTransfer
unfoldable pub charge_authorization :
    ChargeAuthorizationRequest → Action ChargeAuthorizationResponse
charge_authorization req = send (λ env n. env.charge_authorization n req) (charged req)

unfoldable pub create_recipient : CreateRecipientRequest → Action Recipient
create_recipient req = send (λ env n. env.create_recipient n req) (recipient_made req)

unfoldable pub initiate_transfer : TransferRequest → Action Transfer
initiate_transfer req = send (λ env n. env.initiate_transfer n req) (transferred req)

unfoldable pub charge : Payment → User → Mandate → Action Payment
charge p sender m = do
  sender_text ← uuid_string sender.id
  payment_text ← uuid_string p.id
  resp ← charge_authorization (record {
    email = sender_text ++ "@echo.users";
    amount = p.amount_kobo;
    authorization_code = m.authorization_code;
    reference = "CHG_" ++ payment_text;
  })
  require (is_success resp.status) (
      failure
        ("paystack charge status=" ++ (status_text resp.status ++ (": " ++ resp.gateway_resp))))
  within "update charge state" (
      update_payment_charge p.id (some resp.reference) (some resp.status)
        PaymentStatus.transferring)

unfoldable pub transfer : Payment → User → Action Payment
transfer p receiver = do
  recipient ← within "create recipient" (
      create_recipient (record {
        name = deref receiver.account_name receiver.phone;
        account_number = deref receiver.nuban "";
        bank_code = deref receiver.bank_code "";
      }))
  payment_text ← uuid_string p.id
  resp ← within "initiate transfer" (
      initiate_transfer (record {
        source = "balance";
        amount = p.amount_kobo;
        recipient = recipient.recipient_code;
        reason = "EchoPay NG payment";
        reference = "TXF_" ++ payment_text;
      }))
  within "update transfer state"
      (update_payment_transfer p.id (some resp.reference) (some resp.status) PaymentStatus.settling)

-- it returns `errors.New(reason)`, so no value comes back
unfoldable pub fail : {A : Type 0} → Payment → Option Token → String → Action A
fail p tok reason = do
  ignore (mark_payment_failed p.id (some reason))
  on_some tok (λ k. ignore (mark_token_failed k.id))
  payment_text ← uuid_string p.id
  record_event (record {
    user_id = p.sender_user_id;
    actor_id = p.sender_user_id;
    action = "payment.failed";
    target_typ = "payment";
    target_id = payment_text;
    metadata = ("amount_kobo", number p.amount_kobo) ∷ ("reason", text reason) ∷ [];
  })
  raise (failure reason)

-- the name that the push shows
abbrev pub sender_name : User → String
sender_name u =
    if not (is_blank u.full_name)
    then deref u.full_name ""
    else if not (str_eq u.phone "")
    then u.phone
    else "Someone"
