-- ===== src/Payments/Hold/Held.antt =====
-- internal/payments/service.go: what orchestrateHeld has done, the first half of a payment with an undo
-- window.
use echopay.Common.{
  not, ℕ, suc, ◌+◌, ◌≡◌, refl, sym, ap, subst, ◌∙◌, Option, some, [], ◌∷◌, find?, select, ◌==◌,
  true, arith,
}
use echopay.Store.Models.{Payment, User, Mandate, Token, PaymentStatus, is_success, same_status}
use echopay.Store.Payments.{has_id, hold_payment}
use echopay.Store.Terms.{SameTerms, SameTerms-trans}
use echopay.Paystack.{ChargeAuthorizationResponse}
use echopay.World.{Env, World, ok, charged}
use echopay.Action.{pure, now, modify}
use echopay.Action.Steps.{Steps}
use echopay.Action.Ends.{bind_then, handle-ends, within-ends}
use echopay.Quiet.{IsQuiet, quiet_rules}
use echopay.Payments.Hold.{set_timer, schedule_hold_release, orchestrate_held}
use echopay.Payments.Legs.{charge}
use echopay.Payments.Orchestrate.Declined.{charge_request, fail-Yields}
use echopay.Payments.Orchestrate.Settled.{own_row}
use echopay.Payments.Orchestrate.Rows.{update_held-ends}
use echopay.Payments.Orchestrate.Legwork.{charge-ends}
use echopay.Payments.Hold.Timers.{
  update_payments-SameTimers, charge-SameTimers, same_timers, schedule-ends, schedule-others,
}

-- The sender has been charged, once, and the payment waits: no transfer and no entry yet, the row is
-- held until the window is over by the clock of one reading, and the payment has one timer, which fires
-- a window after the reading when it was set, beside the timers of other payments, which are as they
-- were.
pub record Held (env : Env) (p : Payment) (sender : User) (m : Mandate) (window : ℕ) (w : World)
    (q : Payment) (w' : World) : Type 0 where
  pub charge : ChargeAuthorizationResponse
  pub took : is_success charge.status ≡ true
  pub requests : w'.exchanges ≡ charged (charge_request env p sender m) (ok charge) ∷ w.exchanges
  pub entries : w'.ledger_entries ≡ w.ledger_entries
  pub held : q.status ≡ PaymentStatus.held
  pub read_at : ℕ
  pub expires : q.hold_expires_at ≡ some (env.time read_at + window)
  pub terms : SameTerms p q
  pub row : find? (has_id p.id) w'.payments ≡ some q
  pub armed_at : ℕ
  pub timer :
      select (λ t. t.payment_id == p.id) w'.hold_timers
      ≡ record { payment_id = p.id; fires_at = env.time armed_at + window } ∷ []
  pub other_timers :
      select (λ t. not (t.payment_id == p.id)) w'.hold_timers
      ≡ select (λ t. not (t.payment_id == p.id)) w.hold_timers

now-ends :
    (env : Env) (w w' : World) (t : ℕ)
    → now env w ≡ (ok t, w')
    → (t ≡ env.time w.turn) × (w' ≡ record w { turn = suc w.turn })
unfolding now
now-ends env w w' t done = (ground (arith, ap (λ x. x.0) done), sym (ap (λ x. x.1) done))

set_timer-IsQuiet : (id n : ℕ) → Steps IsQuiet (set_timer id n)
unfolding set_timer modify
set_timer-IsQuiet id n = record {
  at = λ env w. record {
    payments = refl;
    ledger = refl;
    exchanges = refl;
    users = refl;
    mandates = refl;
  };
}

schedule-IsQuiet : (id window : ℕ) → Steps IsQuiet (schedule_hold_release id window)
unfolding schedule_hold_release
schedule-IsQuiet id window = search (quiet_rules, set_timer-IsQuiet)

-- Where the held path returns a payment, and the payment that it was given is the row of its id: the
-- charge alone was requested, and succeeded; the ledger is as it was; the row has kept its terms and is
-- held until a window after a reading of the clock; and one timer of the payment is set, which fires a
-- window after a reading of the clock, while the timers of other payments are as they were.
pub orchestrate_held-Held :
    (p : Payment) (sender receiver : User) (m : Mandate) (tok : Option Token) (window : ℕ)
    (env : Env) (w w' : World) (q : Payment)
    → find? (has_id p.id) w.payments ≡ some p
    → orchestrate_held p sender receiver m tok window env w ≡ (ok q, w')
    → Held env p sender m window w q w'
unfolding orchestrate_held hold_payment pure
orchestrate_held-Held p sender receiver m tok window env w w' q known done =
    bind_then _ _ env w w' q done λ p1 w1 first d1. bind_then _ _ env w1 w' q d1 λ t w2 second d2.
      bind_then _ _ env w2 w' q d2 λ p3 w3 third d3. bind_then _ _ env w3 w' q d3 λ _ w4 fourth d4.
        let (c, took, xs, moved, carried) =
          charge-ends p sender m env w w1 p1 known
            (handle-ends _ _ env w w1 p1 (λ e. fail-Yields p tok _) first) in
        let (read, ticked) = now-ends env w1 w2 t second in
        let (row, xs3, carried3) =
          update_held-ends PaymentStatus.transferring
            (λ n x. record x {
              status = PaymentStatus.held;
              hold_expires_at = some (t + window);
              updated_at = n;
            })
            env w2 w3 p1 p3 (λ n x. ground arith)
            (ap (λ s. same_status s PaymentStatus.transferring) moved)
            (subst (λ v. find? (has_id p1.id) v.payments ≡ some p1) (sym ticked) (own_row carried))
            (within-ends _ _ env w2 w3 p3 third) in
        let quiet =
          subst (λ x. IsQuiet w3 x) (ap (λ x. x.1) fourth)
            ((schedule-IsQuiet p3.id window).at env w3) in
        let last = sym (ap (λ x. x.1) d4) in
        let same : q ≡ p3 = ground arith in
        record {
          charge = c;
          took = took;
          requests =
              ap (λ v. v.exchanges) last
              ∙ quiet.exchanges
              ∙ xs3
              ∙ ap (λ v. v.exchanges) ticked
              ∙ xs;
          entries =
              ap (λ v. v.ledger_entries) last
              ∙ quiet.ledger
              ∙ carried3.ledger
              ∙ ap (λ v. v.ledger_entries) ticked
              ∙ carried.ledger;
          held = ap (λ x. x.status) (same ∙ row);
          read_at = w1.turn;
          expires = ap (λ x. x.hold_expires_at) (same ∙ row) ∙ ap (λ n. some (n + window)) read;
          terms =
              subst (λ z. SameTerms p z) (sym same) (SameTerms-trans carried.terms carried3.terms);
          row = cc (carried3.row, quiet.payments, carried.terms.id, same);
          armed_at = w3.turn;
          timer =
              subst
                (λ n.
                  select (λ t. t.payment_id == n) w'.hold_timers
                  ≡ record { payment_id = n; fires_at = env.time w3.turn + window } ∷ [])
                (carried3.terms.id ∙ carried.terms.id)
                (subst
                  (λ v.
                    select (λ t. t.payment_id == p3.id) v.hold_timers
                    ≡ record { payment_id = p3.id; fires_at = env.time w3.turn + window } ∷ [])
                  (sym last) (schedule-ends p3.id window env w3 w4 fourth));
          other_timers =
              ap (λ v. select (λ x. not (x.payment_id == p.id)) v.hold_timers) last
              ∙ subst
                  (λ n.
                    select (λ x. not (x.payment_id == n)) w4.hold_timers
                    ≡ select (λ x. not (x.payment_id == n)) w3.hold_timers)
                  (carried3.terms.id ∙ carried.terms.id)
                  (schedule-others p3.id window env w3 w4 fourth)
              ∙ ap (select (λ x. not (x.payment_id == p.id))) (
                  same_timers _ env w2 w3 p3 (update_payments-SameTimers _ _)
                    (within-ends _ _ env w2 w3 p3 third)
                  ∙ ap (λ v. v.hold_timers) ticked
                  ∙ same_timers (charge p sender m) env w w1 p1 (charge-SameTimers p sender m)
                      (handle-ends _ _ env w w1 p1 (λ e. fail-Yields p tok _) first));
        }
