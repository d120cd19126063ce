-- ===== src/Store/Payments.antt =====
-- internal/store/payments.sql.go, and the constraints of the payments table in migrations 000005
-- and 000007.
use mathlib.Core.Option
use echopay.Common.{
  ℕ, String, Bool, true, false, not, ◌&&◌, ◌||◌, Option, none, some, List, ◌∷◌, ℤ, pos_part,
  is_positive, find?, select, update_where, is_some, sort_by, sort_desc_by, take, drop, ltb, leb,
  ◌==◌, str_eq, if◌then◌else◌,
}
use echopay.Store.Models.{Payment, PaymentStatus, PaystackStatus, same_status, is_success}
use echopay.World.{World, ok, err, failure}
use echopay.Action.{Action, query}
use echopay.Store.Query.{found, select_one, select_many}

abbrev pub has_id : ℕ → Payment → Bool
has_id id p = p.id == id

abbrev pub opt_eq : Option String → String → Bool
opt_eq none s = false
opt_eq (some r) s = str_eq r s

pub record CreatePaymentParams : Type 0 where
  pub token_id : Option ℕ
  pub sender_user_id : ℕ
  pub receiver_user_id : ℕ
  pub sender_mandate_id : ℕ
  pub amount_kobo : ℤ
  pub idempotency_key : String
  pub refunds_payment_id : Option ℕ

-- `NULL`, or a row with this id
abbrev references : (ℕ → Bool) → Option ℕ → Bool
references exists none = true
references exists (some id) = exists id

-- the foreign keys of a payment
abbrev pub refers : CreatePaymentParams → World → Bool
refers a w =
    references (λ id. is_some (find? (λ k. k.id == id) w.tokens)) a.token_id
    && is_some (find? (λ u. u.id == a.sender_user_id) w.users)
    && is_some (find? (λ u. u.id == a.receiver_user_id) w.users)
    && is_some (find? (λ m. m.id == a.sender_mandate_id) w.mandates)
    && references (λ id. is_some (find? (has_id id) w.payments)) a.refunds_payment_id

-- PRIMARY KEY, UNIQUE (idempotency_key), CHECK (amount_kobo > 0) and the foreign keys
abbrev pub accepts : ℕ → CreatePaymentParams → World → Bool
accepts id a w =
    not (is_some (find? (has_id id) w.payments))
    && not (is_some (find? (λ p. str_eq p.idempotency_key a.idempotency_key) w.payments))
    && is_positive a.amount_kobo
    && refers a w

-- the row of an INSERT, with the defaults of the table
abbrev pub new_payment : ℕ → ℕ → CreatePaymentParams → Payment
new_payment t id a = record {
  id = id;
  token_id = a.token_id;
  sender_user_id = a.sender_user_id;
  receiver_user_id = a.receiver_user_id;
  sender_mandate_id = a.sender_mandate_id;
  amount_kobo = pos_part a.amount_kobo;
  idempotency_key = a.idempotency_key;
  charge_reference = none;
  charge_status = none;
  transfer_reference = none;
  transfer_status = none;
  status = PaymentStatus.initiated;
  failure_reason = none;
  created_at = t;
  updated_at = t;
  settled_at = none;
  refunds_payment_id = a.refunds_payment_id;
  auto_refund_reference = none;
  hold_expires_at = none;
}

unfoldable pub create_payment : CreatePaymentParams → Action Payment
create_payment a = query λ t id w.
    if accepts id a w
    then (ok (new_payment t id a), record w { payments = new_payment t id a ∷ w.payments })
    else (err (failure "constraint violated"), w)

unfoldable pub get_payment_by_charge_reference : String → Action Payment
get_payment_by_charge_reference r = select_one (λ w. w.payments) (λ p. opt_eq p.charge_reference r)

unfoldable pub get_payment_by_id : ℕ → Action Payment
get_payment_by_id id = select_one (λ w. w.payments) (has_id id)

unfoldable pub get_payment_by_idempotency_key : String → Action Payment
get_payment_by_idempotency_key key =
    select_one (λ w. w.payments) (λ p. str_eq p.idempotency_key key)

unfoldable pub get_payment_by_transfer_reference : String → Action Payment
get_payment_by_transfer_reference r =
    select_one (λ w. w.payments) (λ p. opt_eq p.transfer_reference r)

-- UPDATE payments SET `change`, updated_at = NOW() WHERE `test` RETURNING *
unfoldable pub update_payments : (Payment → Bool) → (ℕ → Payment → Payment) → Action Payment
update_payments test change = query λ t u w. (
  found (Option.map (change t) (find? test w.payments)),
  record w { payments = update_where test (change t) w.payments },
)

-- WHERE id = $1 AND status = $2
abbrev pub has_id_and : ℕ → PaymentStatus → Payment → Bool
has_id_and id s p = p.id == id && same_status p.status s

unfoldable pub hold_payment : ℕ → ℕ → Action Payment
hold_payment id expires = update_payments (has_id_and id PaymentStatus.transferring) (λ t p.
    record p { status = PaymentStatus.held; hold_expires_at = some expires; updated_at = t })

abbrev due_by : ℕ → Option ℕ → Bool
due_by t none = false
due_by t (some at) = leb at t

abbrev or_zero : Option ℕ → ℕ
or_zero none = 0
or_zero (some n) = n

-- status = 'held' AND hold_expires_at IS NOT NULL AND hold_expires_at <= $1
abbrev pub is_expired_hold : ℕ → Payment → Bool
is_expired_hold t p = same_status p.status PaymentStatus.held && due_by t p.hold_expires_at

unfoldable pub list_expired_holds : ℕ → ℕ → Action (List Payment)
list_expired_holds t limit =
    select_many (λ w. w.payments)
      (λ _ rows.
        take limit (sort_by (λ p. or_zero p.hold_expires_at) (select (is_expired_hold t) rows)))

-- status IN ('debiting','transferring','settling')
abbrev pub is_in_flight : PaymentStatus → Bool
is_in_flight PaymentStatus.debiting = true
is_in_flight PaymentStatus.transferring = true
is_in_flight PaymentStatus.settling = true
is_in_flight _ = false

abbrev charge_succeeded : Option PaystackStatus → Bool
charge_succeeded none = false
charge_succeeded (some s) = is_success s

abbrev pub is_auto_refundable : ℕ → Payment → Bool
is_auto_refundable cutoff p =
    is_in_flight p.status
    && charge_succeeded p.charge_status
    && not (is_some p.auto_refund_reference)
    && ltb p.created_at cutoff

unfoldable pub list_payments_for_auto_refund : ℕ → ℕ → Action (List Payment)
list_payments_for_auto_refund cutoff limit =
    select_many (λ w. w.payments)
      (λ _ rows. take limit (sort_by (λ p. p.created_at) (select (is_auto_refundable cutoff) rows)))

abbrev pub is_stuck : ℕ → Payment → Bool
is_stuck cutoff p =
    (is_in_flight p.status || same_status p.status PaymentStatus.initiated)
    && ltb p.updated_at cutoff

unfoldable pub list_stuck_payments : ℕ → ℕ → Action (List Payment)
list_stuck_payments cutoff limit =
    select_many (λ w. w.payments)
      (λ _ rows. take limit (sort_by (λ p. p.updated_at) (select (is_stuck cutoff) rows)))

unfoldable pub list_user_payments : ℕ → ℕ → ℕ → Action (List Payment)
list_user_payments user limit offset =
    select_many (λ w. w.payments)
      (λ _ rows. take limit (
        drop offset (
          sort_desc_by (λ p. p.created_at)
            (select (λ p. p.sender_user_id == user || p.receiver_user_id == user) rows))))

unfoldable pub mark_payment_auto_refunded : ℕ → Option String → Option String → Action Payment
mark_payment_auto_refunded id reference reason = update_payments (has_id id) (λ t p. record p {
  auto_refund_reference = reference;
  status = PaymentStatus.failed;
  failure_reason = reason;
  updated_at = t;
})

unfoldable pub mark_payment_failed : ℕ → Option String → Action Payment
mark_payment_failed id reason =
    update_payments (has_id id)
      (λ t p. record p { status = PaymentStatus.failed; failure_reason = reason; updated_at = t })

unfoldable pub mark_payment_refunded : ℕ → Option String → Option String → Action Payment
mark_payment_refunded id reference reason =
    update_payments (has_id_and id PaymentStatus.held) (λ t p. record p {
      status = PaymentStatus.refunded;
      auto_refund_reference = reference;
      failure_reason = reason;
      updated_at = t;
    })

unfoldable pub mark_payment_settled : ℕ → Action Payment
mark_payment_settled id =
    update_payments (has_id id)
      (λ t p. record p { status = PaymentStatus.settled; settled_at = some t; updated_at = t })

unfoldable pub release_held_payment : ℕ → Action Payment
release_held_payment id =
    update_payments (has_id_and id PaymentStatus.held)
      (λ t p. record p { status = PaymentStatus.transferring; updated_at = t })

unfoldable pub update_payment_charge :
    ℕ → Option String → Option PaystackStatus → PaymentStatus → Action Payment
update_payment_charge id reference charge_status status = update_payments (has_id id) (λ t p.
    record p {
      charge_reference = reference;
      charge_status = charge_status;
      status = status;
      updated_at = t;
    })

unfoldable pub update_payment_transfer :
    ℕ → Option String → Option PaystackStatus → PaymentStatus → Action Payment
update_payment_transfer id reference transfer_status status = update_payments (has_id id) (λ t p.
    record p {
      transfer_reference = reference;
      transfer_status = transfer_status;
      status = status;
      updated_at = t;
    })
