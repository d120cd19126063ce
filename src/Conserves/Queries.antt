-- ===== src/Conserves/Queries.antt =====
-- Every query steps by a relation that conserves.
use echopay.Common.{refl, ℕ, String, Bool, Option, List, ℤ, arith}
use echopay.Store.Models.{Payment, Token, PaymentStatus, PaystackStatus}
use echopay.Store.Terms.{SameTerms}
use echopay.Store.Query.{select_one, select_many}
use echopay.Store.Payments.{
  CreatePaymentParams, accepts, create_payment, get_payment_by_charge_reference, get_payment_by_id,
  get_payment_by_idempotency_key, get_payment_by_transfer_reference, update_payments, hold_payment,
  list_expired_holds, list_payments_for_auto_refund, list_stuck_payments,
  mark_payment_auto_refunded, mark_payment_failed, mark_payment_refunded, mark_payment_settled,
  release_held_payment, update_payment_charge, update_payment_transfer,
}
use echopay.Store.Tokens.{
  update_tokens, accepts_claim, claim_token, create_token, CreateTokenParams, accepts_token,
  expire_stale_tokens, get_token_by_code, get_token_by_id, mark_token_failed, mark_token_settled,
}
use echopay.Store.Users.{
  get_user_by_id, get_mandate_by_id, sum_user_sent_last_24h, get_trusted_merchant_cap,
}
use echopay.Store.Records.{
  list_payment_ledger, accepts_event, insert_audit_event, InsertAuditEventParams,
}
use echopay.Store.Limits.{
  update_user_limits, cancel_pending_limit_changes, create_pending_limit_change, accepts_pending,
  list_due_pending_limits, mark_pending_limit_applied,
}
use echopay.World.{World}
use echopay.Action.Steps.{Steps, Steps-query, if_cases}
use echopay.Conserves.{Conserves}

module _ {R : World → World → Type 0} (c : Conserves R) where
  select_one-Steps :
      {A : Type 0} (table : World → List A) (test : A → Bool) → Steps R (select_one table test)
  unfolding select_one
  select_one-Steps table test = Steps-query c.frame _ (λ t u w. c.frame.stays w)

  select_many-Steps :
      {A : Type 0} (table : World → List A) (pick : ℕ → List A → List A)
      → Steps R (select_many table pick)
  unfolding select_many
  select_many-Steps table pick = Steps-query c.frame _ (λ t u w. c.frame.stays w)

  update_payments-Steps :
      (test : Payment → Bool) (change : ℕ → Payment → Payment)
      → ((t : ℕ) (p : Payment) → SameTerms p (change t p))
      → Steps R (update_payments test change)
  unfolding update_payments
  update_payments-Steps test change keeps =
      Steps-query c.frame _ (λ t u w. c.payments_change w test (change t) (keeps t))

  pub create_payment-Steps : (a : CreatePaymentParams) → Steps R (create_payment a)
  unfolding create_payment
  create_payment-Steps a =
      Steps-query c.frame _
        λ t id w. if_cases R w (accepts id a w) _ _ (c.payment_enters w t id a) (c.frame.stays w)

  pub get_payment_by_charge_reference-Steps :
      (r : String) → Steps R (get_payment_by_charge_reference r)
  unfolding get_payment_by_charge_reference
  get_payment_by_charge_reference-Steps r = select_one-Steps _ _

  pub get_payment_by_transfer_reference-Steps :
      (r : String) → Steps R (get_payment_by_transfer_reference r)
  unfolding get_payment_by_transfer_reference
  get_payment_by_transfer_reference-Steps r = select_one-Steps _ _

  pub get_payment_by_id-Steps : (id : ℕ) → Steps R (get_payment_by_id id)
  unfolding get_payment_by_id
  get_payment_by_id-Steps id = select_one-Steps _ _

  pub get_payment_by_idempotency_key-Steps :
      (key : String) → Steps R (get_payment_by_idempotency_key key)
  unfolding get_payment_by_idempotency_key
  get_payment_by_idempotency_key-Steps key = select_one-Steps _ _

  pub hold_payment-Steps : (id t : ℕ) → Steps R (hold_payment id t)
  unfolding hold_payment
  hold_payment-Steps id t = update_payments-Steps _ _ (λ t p. ground arith)

  pub list_expired_holds-Steps : (t n : ℕ) → Steps R (list_expired_holds t n)
  unfolding list_expired_holds
  list_expired_holds-Steps t n = select_many-Steps _ _

  pub list_payments_for_auto_refund-Steps : (t n : ℕ) → Steps R (list_payments_for_auto_refund t n)
  unfolding list_payments_for_auto_refund
  list_payments_for_auto_refund-Steps t n = select_many-Steps _ _

  pub list_stuck_payments-Steps : (t n : ℕ) → Steps R (list_stuck_payments t n)
  unfolding list_stuck_payments
  list_stuck_payments-Steps t n = select_many-Steps _ _

  pub mark_payment_auto_refunded-Steps :
      (id : ℕ) (r s : Option String) → Steps R (mark_payment_auto_refunded id r s)
  unfolding mark_payment_auto_refunded
  mark_payment_auto_refunded-Steps id r s = update_payments-Steps _ _ (λ t p. ground arith)

  pub mark_payment_failed-Steps : (id : ℕ) (r : Option String) → Steps R (mark_payment_failed id r)
  unfolding mark_payment_failed
  mark_payment_failed-Steps id r = update_payments-Steps _ _ (λ t p. ground arith)

  pub mark_payment_refunded-Steps :
      (id : ℕ) (r s : Option String) → Steps R (mark_payment_refunded id r s)
  unfolding mark_payment_refunded
  mark_payment_refunded-Steps id r s = update_payments-Steps _ _ (λ t p. ground arith)

  pub mark_payment_settled-Steps : (id : ℕ) → Steps R (mark_payment_settled id)
  unfolding mark_payment_settled
  mark_payment_settled-Steps id = update_payments-Steps _ _ (λ t p. ground arith)

  pub release_held_payment-Steps : (id : ℕ) → Steps R (release_held_payment id)
  unfolding release_held_payment
  release_held_payment-Steps id = update_payments-Steps _ _ (λ t p. ground arith)

  pub update_payment_charge-Steps :
      (id : ℕ) (r : Option String) (s : Option PaystackStatus) (t : PaymentStatus)
      → Steps R (update_payment_charge id r s t)
  unfolding update_payment_charge
  update_payment_charge-Steps id r s t = update_payments-Steps _ _ (λ t p. ground arith)

  pub update_payment_transfer-Steps :
      (id : ℕ) (r : Option String) (s : Option PaystackStatus) (t : PaymentStatus)
      → Steps R (update_payment_transfer id r s t)
  unfolding update_payment_transfer
  update_payment_transfer-Steps id r s t = update_payments-Steps _ _ (λ t p. ground arith)

  update_tokens-Steps :
      (test : ℕ → Token → Bool) (change : ℕ → Token → Token) → Steps R (update_tokens test change)
  unfolding update_tokens
  update_tokens-Steps test change =
      Steps-query c.frame _ (λ t u w. c.elsewhere w _ refl refl refl refl)

  pub claim_token-Steps : (id user : ℕ) → Steps R (claim_token id user)
  unfolding claim_token
  claim_token-Steps id user = Steps-query c.frame _ λ t u w.
      if_cases R w (accepts_claim id user t w) _ _ (λ _. c.elsewhere w _ refl refl refl refl)
        (c.frame.stays w)

  pub create_token-Steps : (a : CreateTokenParams) → Steps R (create_token a)
  unfolding create_token
  create_token-Steps a = Steps-query c.frame _ λ t id w.
      if_cases R w (accepts_token id a w) _ _ (λ _. c.elsewhere w _ refl refl refl refl)
        (c.frame.stays w)

  pub expire_stale_tokens-Steps : Steps R expire_stale_tokens
  unfolding expire_stale_tokens
  expire_stale_tokens-Steps = Steps-query c.frame _ (λ t u w. c.elsewhere w _ refl refl refl refl)

  pub get_token_by_code-Steps : (code : String) → Steps R (get_token_by_code code)
  unfolding get_token_by_code
  get_token_by_code-Steps code = select_one-Steps _ _

  pub get_token_by_id-Steps : (id : ℕ) → Steps R (get_token_by_id id)
  unfolding get_token_by_id
  get_token_by_id-Steps id = select_one-Steps _ _

  pub mark_token_failed-Steps : (id : ℕ) → Steps R (mark_token_failed id)
  unfolding mark_token_failed
  mark_token_failed-Steps id = update_tokens-Steps _ _

  pub mark_token_settled-Steps : (id payment : ℕ) → Steps R (mark_token_settled id payment)
  unfolding mark_token_settled
  mark_token_settled-Steps id payment = update_tokens-Steps _ _

  pub get_user_by_id-Steps : (id : ℕ) → Steps R (get_user_by_id id)
  unfolding get_user_by_id
  get_user_by_id-Steps id = select_one-Steps _ _

  pub get_mandate_by_id-Steps : (id : ℕ) → Steps R (get_mandate_by_id id)
  unfolding get_mandate_by_id
  get_mandate_by_id-Steps id = select_one-Steps _ _

  pub sum_user_sent_last_24h-Steps : (id : ℕ) → Steps R (sum_user_sent_last_24h id)
  unfolding sum_user_sent_last_24h
  sum_user_sent_last_24h-Steps id = Steps-query c.frame _ (λ t u w. c.frame.stays w)

  pub get_trusted_merchant_cap-Steps : (u m : ℕ) → Steps R (get_trusted_merchant_cap u m)
  unfolding get_trusted_merchant_cap
  get_trusted_merchant_cap-Steps u m = Steps-query c.frame _ (λ t u w. c.frame.stays w)

  pub list_payment_ledger-Steps : (id : ℕ) → Steps R (list_payment_ledger id)
  unfolding list_payment_ledger
  list_payment_ledger-Steps id = select_many-Steps _ _

  pub insert_audit_event-Steps : (a : InsertAuditEventParams) → Steps R (insert_audit_event a)
  unfolding insert_audit_event
  insert_audit_event-Steps a =
      Steps-query c.frame _
        λ t u w. if_cases R w (accepts_event a w) _ _ (λ _. c.event_enters w _) (c.frame.stays w)

  pub update_user_limits-Steps : (id x y : ℕ) → Steps R (update_user_limits id x y)
  unfolding update_user_limits
  update_user_limits-Steps id x y =
      Steps-query c.frame _ (λ t u w. c.elsewhere w _ refl refl refl refl)

  pub cancel_pending_limit_changes-Steps : (id : ℕ) → Steps R (cancel_pending_limit_changes id)
  unfolding cancel_pending_limit_changes
  cancel_pending_limit_changes-Steps id =
      Steps-query c.frame _ (λ t u w. c.elsewhere w _ refl refl refl refl)

  pub create_pending_limit_change-Steps :
      (id : ℕ) (x y : ℤ) (t : ℕ) → Steps R (create_pending_limit_change id x y t)
  unfolding create_pending_limit_change
  create_pending_limit_change-Steps id x y t = Steps-query c.frame _ λ now u w.
      if_cases R w (accepts_pending u id x y w) _ _ (λ _. c.elsewhere w _ refl refl refl refl)
        (c.frame.stays w)

  pub list_due_pending_limits-Steps : (t n : ℕ) → Steps R (list_due_pending_limits t n)
  unfolding list_due_pending_limits
  list_due_pending_limits-Steps t n = select_many-Steps _ _

  pub mark_pending_limit_applied-Steps : (id : ℕ) → Steps R (mark_pending_limit_applied id)
  unfolding mark_pending_limit_applied
  mark_pending_limit_applied-Steps id =
      Steps-query c.frame _ (λ t u w. c.elsewhere w _ refl refl refl refl)

pub ruleset query_steps = (
  create_payment-Steps, get_payment_by_charge_reference-Steps,
  get_payment_by_transfer_reference-Steps, get_payment_by_id-Steps,
  get_payment_by_idempotency_key-Steps, hold_payment-Steps, list_expired_holds-Steps,
  list_payments_for_auto_refund-Steps, list_stuck_payments-Steps, mark_payment_auto_refunded-Steps,
  mark_payment_failed-Steps, mark_payment_refunded-Steps, mark_payment_settled-Steps,
  release_held_payment-Steps, update_payment_charge-Steps, update_payment_transfer-Steps,
  claim_token-Steps, create_token-Steps, expire_stale_tokens-Steps, get_token_by_code-Steps,
  get_token_by_id-Steps, mark_token_failed-Steps, mark_token_settled-Steps, get_user_by_id-Steps,
  get_mandate_by_id-Steps, sum_user_sent_last_24h-Steps, get_trusted_merchant_cap-Steps,
  list_payment_ledger-Steps, insert_audit_event-Steps, update_user_limits-Steps,
  cancel_pending_limit_changes-Steps, create_pending_limit_change-Steps,
  list_due_pending_limits-Steps, mark_pending_limit_applied-Steps,
)
