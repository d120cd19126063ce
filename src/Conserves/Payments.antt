-- ===== src/Conserves/Payments.antt =====
-- Every service of payments, tokens and limits steps by a relation that conserves.
use echopay.Common.{refl, ℕ, String, Option, none, some}
use echopay.Store.Models.{User, Mandate, Token, Payment}
use echopay.World.{World}
use echopay.Action.{Action, modify}
use echopay.Action.Steps.{Steps, Steps-bind, steps_rules}
use echopay.Action.Yields.{
  Yields, Yields-handle, yields_rules, Steps-bind_yields, StepsFrom-bind, StepsFrom-handle,
  StepsFrom-Steps,
}
use echopay.Audit.{Event, record_event}
use echopay.Push.{notify_payment_received}
use echopay.Push.Fanout.{notify_payment_received-Steps}
use echopay.Tokens.{issue, resolve, claim, IssueRequest}
use echopay.Risk.Trusted.{effective_cap}
use echopay.Payments.Types.{CreateRequest, RefundRequest, UndoRequest}
use echopay.Payments.Checks.{idempotent_return, validated_mandate, enforce_limits}
use echopay.Payments.Legs.{
  charge_authorization, create_recipient, initiate_transfer, charge, transfer, fail,
}
use echopay.Payments.Orchestrate.{audit_side, orchestrate}
use echopay.Payments.Hold.{
  set_timer, drop_timer, schedule_hold_release, orchestrate_held, load_token, complete_release,
  release_hold, timer_fires, release_due_holds,
}
use echopay.Payments.Create.{
  or_fail_token, pay_token, create_fresh, create, pay_back, refund_fresh, refund,
}
use echopay.Payments.Undo.{refund_charge, complete_undo, issue_undo, undo}
use echopay.Conserves.{Conserves}
use echopay.Conserves.Queries.{query_steps}
use echopay.Conserves.Entries.{
  Holds, Holds-stable, update_payment_transfer-Yields, record_payment_pair-StepsFrom,
}

transfer-Yields : (p : Payment) (u : User) → Yields (transfer p u) Holds
unfolding transfer
transfer-Yields p u = search (yields_rules, update_payment_transfer-Yields)

fail-Yields :
    {A : Type 0} {Q : A → World → Type 0} (p : Payment) (k : Option Token) (s : String)
    → Yields (fail p k s) Q
unfolding fail
fail-Yields p k s = search yields_rules

module _ {R : World → World → Type 0} (c : Conserves R) where
  record_event-Steps : (e : Event) → Steps R (record_event e)
  unfolding record_event
  record_event-Steps e = search (steps_rules, query_steps)

  notify-Steps : (p : Payment) (s : String) → Steps R (notify_payment_received p s)
  notify-Steps =
      notify_payment_received-Steps c.frame (λ w n rows sent. c.elsewhere w _ refl refl refl refl)

  drop_timer-Steps : (id : ℕ) → Steps R (drop_timer id)
  unfolding drop_timer modify
  drop_timer-Steps id = record { at = λ env w. c.elsewhere w _ refl refl refl refl }

  set_timer-Steps : (id t : ℕ) → Steps R (set_timer id t)
  unfolding set_timer modify
  set_timer-Steps id t = record { at = λ env w. c.elsewhere w _ refl refl refl refl }

  charge-Steps : (p : Payment) (u : User) (m : Mandate) → Steps R (charge p u m)
  unfolding charge charge_authorization
  charge-Steps p u m = search (steps_rules, query_steps) depth 8

  transfer-Steps : (p : Payment) (u : User) → Steps R (transfer p u)
  unfolding transfer create_recipient initiate_transfer
  transfer-Steps p u = search (steps_rules, query_steps) depth 8

  fail-Steps :
      {A : Type 0} (p : Payment) (k : Option Token) (s : String) → Steps R (fail {A = A} p k s)
  unfolding fail
  fail-Steps p k s = search (steps_rules, query_steps, record_event-Steps) depth 8

  audit_side-Steps : (p : Payment) (u : ℕ) (s : String) → Steps R (audit_side p u s)
  unfolding audit_side
  audit_side-Steps p u s = search (steps_rules, record_event-Steps) depth 8

  ruleset leg_steps = (
    record_event-Steps, notify-Steps, drop_timer-Steps, set_timer-Steps, charge-Steps,
    transfer-Steps, fail-Steps, audit_side-Steps,
  )

  orchestrate-Steps :
      (p : Payment) (u v : User) (m : Mandate) (k : Option Token) → Steps R (orchestrate p u v m k)
  unfolding orchestrate
  orchestrate-Steps p u v m k = Steps-bind c.frame _ _ (search (steps_rules, leg_steps)) λ debited.
      Steps-bind_yields c.frame Holds _ _ (search (steps_rules, leg_steps))
        (search (Yields-handle, transfer-Yields, fail-Yields))
        λ sent.
          StepsFrom-bind c.frame (Holds sent) (Holds-stable c sent) _ _
            (StepsFrom-handle c.frame (Holds sent) _ _ (record_payment_pair-StepsFrom c sent _)
              (λ e. fail-Steps sent k _))
            (λ _. StepsFrom-Steps _ (search (steps_rules, query_steps, leg_steps) depth 12))

  schedule-Steps : (id t : ℕ) → Steps R (schedule_hold_release id t)
  unfolding schedule_hold_release
  schedule-Steps id t = search (steps_rules, leg_steps)

  orchestrate_held-Steps :
      (p : Payment) (u v : User) (m : Mandate) (k : Option Token) (t : ℕ)
      → Steps R (orchestrate_held p u v m k t)
  unfolding orchestrate_held
  orchestrate_held-Steps p u v m k t =
      search (steps_rules, query_steps, leg_steps, schedule-Steps) depth 12

  load_token-Steps : (id : Option ℕ) → Steps R (load_token id)
  unfolding load_token
  load_token-Steps none = search steps_rules
  load_token-Steps (some id) = search (steps_rules, query_steps)

  complete_release-Steps : (p : Payment) → Steps R (complete_release p)
  unfolding complete_release
  complete_release-Steps p = Steps-bind c.frame _ _ (search query_steps) λ receiver.
      Steps-bind c.frame _ _ (search query_steps) λ sender.
        Steps-bind c.frame _ _ (load_token-Steps p.token_id) λ tok.
          Steps-bind_yields c.frame Holds _ _ (search (steps_rules, leg_steps))
            (search (Yields-handle, transfer-Yields, fail-Yields))
            λ sent.
              StepsFrom-bind c.frame (Holds sent) (Holds-stable c sent) _ _
                (StepsFrom-handle c.frame (Holds sent) _ _ (record_payment_pair-StepsFrom c sent _)
                  (λ e. fail-Steps sent tok _))
                (λ _. StepsFrom-Steps _ (search (steps_rules, query_steps, leg_steps) depth 8))

  pub release_hold-Steps : (id : ℕ) → Steps R (release_hold id)
  unfolding release_hold
  release_hold-Steps id = search (steps_rules, query_steps, complete_release-Steps)

  pub timer_fires-Steps : (id : ℕ) → Steps R (timer_fires id)
  unfolding timer_fires
  timer_fires-Steps id = search (steps_rules, leg_steps, release_hold-Steps)

  pub release_due_holds-Steps : (n : ℕ) → Steps R (release_due_holds n)
  unfolding release_due_holds
  release_due_holds-Steps n = search (steps_rules, query_steps, release_hold-Steps) depth 8

  claim-Steps : (s : String) (id : ℕ) → Steps R (claim s id)
  unfolding claim
  claim-Steps s id = search (steps_rules, query_steps) depth 8

  pub issue-Steps : (s : String) (r : IssueRequest) → Steps R (issue s r)
  unfolding issue
  issue-Steps s r = search (steps_rules, query_steps) depth 8

  pub resolve-Steps : (s : String) → Steps R (resolve s)
  unfolding resolve
  resolve-Steps s = search (steps_rules, query_steps) depth 8

  idempotent_return-Steps : (s : String) → Steps R (idempotent_return s)
  unfolding idempotent_return
  idempotent_return-Steps s = search (steps_rules, query_steps) depth 8

  validated_mandate-Steps : (m u : ℕ) → Steps R (validated_mandate m u)
  unfolding validated_mandate
  validated_mandate-Steps m u = search (steps_rules, query_steps) depth 8

  effective_cap-Steps : (u m d : ℕ) → Steps R (effective_cap u m d)
  unfolding effective_cap
  effective_cap-Steps u m d = search (steps_rules, query_steps) depth 8

  enforce_limits-Steps : (u : User) (v a : ℕ) → Steps R (enforce_limits u v a)
  unfolding enforce_limits
  enforce_limits-Steps u v a = search (steps_rules, query_steps, effective_cap-Steps) depth 8

  or_fail_token-Steps : (id : ℕ) (m : Action (Unit {0})) → Steps R m → Steps R (or_fail_token id m)
  unfolding or_fail_token
  or_fail_token-Steps id m h = search (steps_rules, query_steps) depth 8

  ruleset check_steps = (
    claim-Steps, idempotent_return-Steps, validated_mandate-Steps, enforce_limits-Steps,
    or_fail_token-Steps, orchestrate-Steps, orchestrate_held-Steps,
  )

  pay_token-Steps :
      (req : CreateRequest) (u : User) (m : Mandate) (k : Token) → Steps R (pay_token req u m k)
  unfolding pay_token
  pay_token-Steps req u m k = search (steps_rules, query_steps, check_steps) depth 12

  create_fresh-Steps : (req : CreateRequest) → Steps R (create_fresh req)
  unfolding create_fresh
  create_fresh-Steps req = search (steps_rules, query_steps, check_steps, pay_token-Steps) depth 12

  pub create-Steps : (req : CreateRequest) → Steps R (create req)
  unfolding create
  create-Steps req = search (steps_rules, check_steps, create_fresh-Steps)

  refund_fresh-Steps : (req : RefundRequest) → Steps R (refund_fresh req)
  unfolding refund_fresh pay_back
  refund_fresh-Steps req = search (steps_rules, query_steps, check_steps) depth 24

  pub refund-Steps : (req : RefundRequest) → Steps R (refund req)
  unfolding refund
  refund-Steps req = search (steps_rules, check_steps, refund_fresh-Steps)

  pub undo-Steps : (req : UndoRequest) → Steps R (undo req)
  unfolding undo issue_undo complete_undo refund_charge
  undo-Steps req = search (steps_rules, query_steps, leg_steps) depth 24
