-- ===== src/Quiet.antt =====
-- Actions that move no money: they leave the payments, the ledger and the log of requests to Paystack
-- as they are, and the users and the mandates too. Tokens, timers, limits, the audit trail and the
-- pushes may change.
use echopay.Common.{ℕ, ◌≡◌, refl, ◌∙◌, String, Bool, List}
use echopay.Store.Models.{Payment, Token, User}
use echopay.Store.Query.{select_one}
use echopay.Store.Payments.{get_payment_by_id, get_payment_by_idempotency_key}
use echopay.Store.Tokens.{
  update_tokens, accepts_claim, claim_token, get_token_by_code, get_token_by_id, mark_token_failed,
  mark_token_settled,
}
use echopay.Store.Users.{
  get_user_by_id, get_mandate_by_id, sum_user_sent_last_24h, get_trusted_merchant_cap,
}
use echopay.Store.Records.{accepts_event, insert_audit_event, InsertAuditEventParams}
use echopay.World.{World}
use echopay.Action.{modify}
use echopay.Action.Steps.{Frame, Steps, Steps-query, if_cases, steps_rules}
use echopay.Push.{notify_payment_received}
use echopay.Push.Fanout.{notify_payment_received-Steps}
use echopay.Audit.{Event, record_event}
use echopay.Tokens.{claim}
use echopay.Risk.Trusted.{effective_cap}
use echopay.Payments.Checks.{idempotent_return, validated_mandate, enforce_limits}
use echopay.Payments.Hold.{drop_timer}

pub record IsQuiet (w w' : World) : Type 0 where
  pub payments : w'.payments ≡ w.payments
  pub ledger : w'.ledger_entries ≡ w.ledger_entries
  pub exchanges : w'.exchanges ≡ w.exchanges
  pub users : w'.users ≡ w.users
  pub mandates : w'.mandates ≡ w.mandates

pub IsQuiet-frame : Frame IsQuiet
IsQuiet-frame = record {
  stays = λ w. record {
    payments = refl;
    ledger = refl;
    exchanges = refl;
    users = refl;
    mandates = refl;
  };
  goes_on = λ a b c h k. record {
    payments = k.payments ∙ h.payments;
    ledger = k.ledger ∙ h.ledger;
    exchanges = k.exchanges ∙ h.exchanges;
    users = k.users ∙ h.users;
    mandates = k.mandates ∙ h.mandates;
  };
  ticks = λ w n. record {
    payments = refl;
    ledger = refl;
    exchanges = refl;
    users = refl;
    mandates = refl;
  };
}

select_one-IsQuiet :
    {A : Type 0} (table : World → List A) (test : A → Bool) → Steps IsQuiet (select_one table test)
unfolding select_one
select_one-IsQuiet table test = Steps-query IsQuiet-frame _ (λ t u w. IsQuiet-frame.stays w)

update_tokens-IsQuiet :
    (test : ℕ → Token → Bool) (change : ℕ → Token → Token)
    → Steps IsQuiet (update_tokens test change)
unfolding update_tokens
update_tokens-IsQuiet test change = Steps-query IsQuiet-frame _ (λ t u w. record {
  payments = refl;
  ledger = refl;
  exchanges = refl;
  users = refl;
  mandates = refl;
})

pub get_payment_by_id-IsQuiet : (id : ℕ) → Steps IsQuiet (get_payment_by_id id)
unfolding get_payment_by_id
get_payment_by_id-IsQuiet id = select_one-IsQuiet _ _

pub get_payment_by_key-IsQuiet : (key : String) → Steps IsQuiet (get_payment_by_idempotency_key key)
unfolding get_payment_by_idempotency_key
get_payment_by_key-IsQuiet key = select_one-IsQuiet _ _

pub get_token_by_code-IsQuiet : (code : String) → Steps IsQuiet (get_token_by_code code)
unfolding get_token_by_code
get_token_by_code-IsQuiet code = select_one-IsQuiet _ _

pub get_token_by_id-IsQuiet : (id : ℕ) → Steps IsQuiet (get_token_by_id id)
unfolding get_token_by_id
get_token_by_id-IsQuiet id = select_one-IsQuiet _ _

pub get_user_by_id-IsQuiet : (id : ℕ) → Steps IsQuiet (get_user_by_id id)
unfolding get_user_by_id
get_user_by_id-IsQuiet id = select_one-IsQuiet _ _

pub get_mandate_by_id-IsQuiet : (id : ℕ) → Steps IsQuiet (get_mandate_by_id id)
unfolding get_mandate_by_id
get_mandate_by_id-IsQuiet id = select_one-IsQuiet _ _

pub claim_token-IsQuiet : (id user : ℕ) → Steps IsQuiet (claim_token id user)
unfolding claim_token
claim_token-IsQuiet id user = Steps-query IsQuiet-frame _ (λ t u w.
    if_cases IsQuiet w (accepts_claim id user t w) _ _
      (λ _. record {
        payments = refl;
        ledger = refl;
        exchanges = refl;
        users = refl;
        mandates = refl;
      })
      (IsQuiet-frame.stays w))

pub mark_token_failed-IsQuiet : (id : ℕ) → Steps IsQuiet (mark_token_failed id)
unfolding mark_token_failed
mark_token_failed-IsQuiet id = update_tokens-IsQuiet _ _

pub mark_token_settled-IsQuiet : (id p : ℕ) → Steps IsQuiet (mark_token_settled id p)
unfolding mark_token_settled
mark_token_settled-IsQuiet id p = update_tokens-IsQuiet _ _

pub sum_user_sent-IsQuiet : (id : ℕ) → Steps IsQuiet (sum_user_sent_last_24h id)
unfolding sum_user_sent_last_24h
sum_user_sent-IsQuiet id = Steps-query IsQuiet-frame _ (λ t u w. IsQuiet-frame.stays w)

pub get_cap-IsQuiet : (u m : ℕ) → Steps IsQuiet (get_trusted_merchant_cap u m)
unfolding get_trusted_merchant_cap
get_cap-IsQuiet u m = Steps-query IsQuiet-frame _ (λ t u w. IsQuiet-frame.stays w)

insert_audit_event-IsQuiet : (a : InsertAuditEventParams) → Steps IsQuiet (insert_audit_event a)
unfolding insert_audit_event
insert_audit_event-IsQuiet a = Steps-query IsQuiet-frame _ (λ t u w.
    if_cases IsQuiet w (accepts_event a w) _ _
      (λ _. record {
        payments = refl;
        ledger = refl;
        exchanges = refl;
        users = refl;
        mandates = refl;
      })
      (IsQuiet-frame.stays w))

pub record_event-IsQuiet : (e : Event) → Steps IsQuiet (record_event e)
unfolding record_event
record_event-IsQuiet e = search (steps_rules, insert_audit_event-IsQuiet)

pub drop_timer-IsQuiet : (id : ℕ) → Steps IsQuiet (drop_timer id)
unfolding drop_timer modify
drop_timer-IsQuiet id = record {
  at = λ env w. record {
    payments = refl;
    ledger = refl;
    exchanges = refl;
    users = refl;
    mandates = refl;
  };
}

pub notify-IsQuiet : (p : Payment) (name : String) → Steps IsQuiet (notify_payment_received p name)
notify-IsQuiet = notify_payment_received-Steps IsQuiet-frame (λ w n rows sent. record {
  payments = refl;
  ledger = refl;
  exchanges = refl;
  users = refl;
  mandates = refl;
})

pub ruleset quiet_rules = (
  notify-IsQuiet, IsQuiet-frame, steps_rules, get_payment_by_id-IsQuiet, get_payment_by_key-IsQuiet,
  get_token_by_code-IsQuiet, get_user_by_id-IsQuiet, get_mandate_by_id-IsQuiet, claim_token-IsQuiet,
  mark_token_failed-IsQuiet, mark_token_settled-IsQuiet, sum_user_sent-IsQuiet, get_cap-IsQuiet,
  record_event-IsQuiet, drop_timer-IsQuiet,
)

pub claim-IsQuiet : (code : String) (user : ℕ) → Steps IsQuiet (claim code user)
unfolding claim
claim-IsQuiet code user = search quiet_rules depth 8

pub validated_mandate-IsQuiet : (m u : ℕ) → Steps IsQuiet (validated_mandate m u)
unfolding validated_mandate
validated_mandate-IsQuiet m u = search quiet_rules depth 8

pub idempotent_return-IsQuiet : (key : String) → Steps IsQuiet (idempotent_return key)
unfolding idempotent_return
idempotent_return-IsQuiet key = search quiet_rules depth 8

pub enforce_limits-IsQuiet : (u : User) (v a : ℕ) → Steps IsQuiet (enforce_limits u v a)
unfolding enforce_limits effective_cap
enforce_limits-IsQuiet u v a = search quiet_rules depth 12
