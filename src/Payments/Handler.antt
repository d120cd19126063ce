-- ===== src/Payments/Handler.antt =====
-- internal/payments/handler.go: the pages of payments. The bodies are bound by the framework;
-- `parse_uuid` is uuid.Parse.
pub mod Parties
use mathlib.Core.List.{map}
use echopay.Common.{
  int32, ℕ, ◌*◌, String, Bool, true, false, not, ◌&&◌, ◌||◌, Option, none, some, List, ℤ, pos,
  pos_part, is_positive, str_eq, leb, ◌==◌, if◌then◌else◌,
}
use echopay.Store.Models.{Payment}
use echopay.Store.Payments.{get_payment_by_id}
use echopay.World.{
  Error, wrapped, tx_limit_exceeded, daily_limit_exceeded, mandate_not_active, mandate_not_owned,
  receiver_no_bank, not_receiver, refund_too_large, original_not_settled, not_sender,
  undo_window_closed, undo_unavailable, error_text,
}
use echopay.Action.{Action, attempt}
use echopay.Http.{Outcome, refuse, give, Context, for_user, with_id}
use echopay.Payments.Types.{Receipt}
use echopay.Payments.Create.{create, refund}
use echopay.Payments.Undo.{undo}
use echopay.Payments.Activity.{list_user_activity}

pub record CreateBody : Type 0 where
  pub token_code : String
  pub mandate_id : String
  pub idempotency_key : String
  pub undo_window_seconds : ℤ

pub record RefundBody : Type 0 where
  pub mandate_id : String
  pub amount_kobo : ℤ
  pub idempotency_key : String

-- up to a minute, in nanoseconds
abbrev pub window_of : ℤ → ℕ
window_of seconds =
    if is_positive seconds && leb (pos_part seconds) 60 then pos_part seconds * 1_000_000_000 else 0

-- the errors that Create and Refund share
abbrev pub payment_status : Error → ℕ
payment_status tx_limit_exceeded = 403
payment_status daily_limit_exceeded = 403
payment_status mandate_not_active = 400
payment_status mandate_not_owned = 400
payment_status receiver_no_bank = 424
payment_status (wrapped s e) = payment_status e
payment_status _ = 502

abbrev pub refund_status : Error → ℕ
refund_status not_receiver = 403
refund_status refund_too_large = 400
refund_status original_not_settled = 400
refund_status (wrapped s e) = refund_status e
refund_status e = payment_status e

abbrev pub undo_status : Error → ℕ
undo_status not_sender = 403
undo_status undo_window_closed = 410
undo_status undo_unavailable = 409
undo_status (wrapped s e) = undo_status e
undo_status _ = 502

-- a payment of the list, and whether the user sent it
pub record ActivityRow : Type 0 where
  pub payment : Payment
  pub sent : Bool

-- a payment is shown to its sender and to its receiver
abbrev pub shown_to : Context → Payment → Action (Outcome Payment)
shown_to c p =
    if not (p.sender_user_id == c.user_id) && not (p.receiver_user_id == c.user_id)
    then refuse 403 "not your payment"
    else give p

module _ (parse_uuid : String → Option ℕ) where
  unfoldable pub create_page : Context → CreateBody → Action (Outcome Receipt)
  create_page c body = for_user c (
      if str_eq body.token_code "" || str_eq body.mandate_id "" || str_eq body.idempotency_key ""
      then refuse 400 "token_code, mandate_id, idempotency_key required"
      else with_id "invalid mandate_id" (parse_uuid body.mandate_id) λ mandate.
        attempt
          (create (record {
            sender_user_id = c.user_id;
            token_code = body.token_code;
            mandate_id = mandate;
            idempotency_key = body.idempotency_key;
            undo_window = pos (window_of body.undo_window_seconds);
          }))
          (λ e. refuse (payment_status e) (error_text e)) give)

  unfoldable pub get_page : Context → String → Action (Outcome Payment)
  get_page c id = for_user c (
      with_id "invalid payment id" (parse_uuid id)
        λ payment. attempt (get_payment_by_id payment) (λ _. refuse 404 "not found") (shown_to c))

  unfoldable pub refund_page : Context → String → RefundBody → Action (Outcome Receipt)
  refund_page c id body = for_user c (
      with_id "invalid payment id" (parse_uuid id) λ original.
        if str_eq body.mandate_id "" || str_eq body.idempotency_key ""
        then refuse 400 "mandate_id and idempotency_key required"
        else with_id "invalid mandate_id" (parse_uuid body.mandate_id) λ mandate.
          attempt
            (refund (record {
              original_payment_id = original;
              refunder_user_id = c.user_id;
              mandate_id = mandate;
              amount_kobo = body.amount_kobo;
              idempotency_key = body.idempotency_key;
            }))
            (λ e. refuse (refund_status e) (error_text e)) give)

  unfoldable pub undo_page : Context → String → Action (Outcome Payment)
  undo_page c id = for_user c (
      with_id "invalid payment id" (parse_uuid id) λ payment.
        attempt (undo (record { payment_id = payment; caller_id = c.user_id }))
          (λ e. refuse (undo_status e) (error_text e)) give)

-- the limit and the offset are what strconv.Atoi read
unfoldable pub activity_page : Context → ℤ → ℤ → Action (Outcome (List ActivityRow))
activity_page c limit offset = for_user c (
    attempt (list_user_activity c.user_id (int32 limit) (int32 offset))
      (λ e. refuse 500 (error_text e))
      λ rows. give (map (λ p. record { payment = p; sent = p.sender_user_id == c.user_id }) rows))
