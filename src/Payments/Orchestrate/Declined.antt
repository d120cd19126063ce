-- ===== src/Payments/Orchestrate/Declined.antt =====
-- A charge that does not succeed: no money leaves the platform.
use Prim.Native.String.{◌++◌}
use echopay.Common.{
  ℕ, suc, ◌≡◌, refl, sym, ap, ◌∙◌, String, Bool, true, false, Option, ◌∷◌, arith, if◌then◌else◌,
}
use echopay.Store.Models.{Payment, User, Mandate, Token, is_success, status_text}
use echopay.Store.Payments.{mark_payment_failed, update_payments}
use echopay.Paystack.{ChargeAuthorizationRequest, ChargeAuthorizationResponse}
use echopay.World.{Env, World, Error, Result, ok, err, charged, failure, error_text}
use echopay.Action.{
  Action, pure, raise, send, uuid_string, ◌>>=◌, handle, require, continue, recover,
}
use echopay.Audit.{Event, record_event}
use echopay.Store.Tokens.{mark_token_failed}
use echopay.Action.Steps.{Frame, Steps, Steps-query, steps_rules}
use echopay.Action.Yields.{Yields, yields_rules}
use echopay.Quiet.{IsQuiet, mark_token_failed-IsQuiet, record_event-IsQuiet}
use echopay.Payments.Legs.{charge_authorization, charge, fail}
use echopay.Payments.Orchestrate.{orchestrate}
use echopay.Payments.Hold.{orchestrate_held}

-- Paystack did not take the money
abbrev pub is_declined : Result ChargeAuthorizationResponse → Bool
is_declined (ok r) = if is_success r.status then false else true
is_declined (err e) = true

-- the charge that is asked for
abbrev pub charge_request : Env → Payment → User → Mandate → ChargeAuthorizationRequest
charge_request env p sender m = record {
  email = env.uuid_text sender.id ++ "@echo.users";
  amount = p.amount_kobo;
  authorization_code = m.authorization_code;
  reference = "CHG_" ++ env.uuid_text p.id;
}

-- the ledger and the log of requests stay as they are
record NoMoney (w w' : World) : Type 0 where
  ledger : w'.ledger_entries ≡ w.ledger_entries
  exchanges : w'.exchanges ≡ w.exchanges

NoMoney-frame : Frame NoMoney
NoMoney-frame = record {
  stays = λ w. record { ledger = refl; exchanges = refl };
  goes_on =
      λ a b c h k. record { ledger = k.ledger ∙ h.ledger; exchanges = k.exchanges ∙ h.exchanges };
  ticks = λ w n. record { ledger = refl; exchanges = refl };
}

IsQuiet-NoMoney : {A : Type 0} (m : Action A) → Steps IsQuiet m → Steps NoMoney m
IsQuiet-NoMoney m h = record {
  at = λ env w. record { ledger = (h.at env w).ledger; exchanges = (h.at env w).exchanges };
}

mark_payment_failed-NoMoney :
    (id : ℕ) (s : Option String) → Steps NoMoney (mark_payment_failed id s)
unfolding mark_payment_failed update_payments
mark_payment_failed-NoMoney id s =
    Steps-query NoMoney-frame _ (λ t u w. record { ledger = refl; exchanges = refl })

mark_token_failed-NoMoney : (id : ℕ) → Steps NoMoney (mark_token_failed id)
mark_token_failed-NoMoney id = IsQuiet-NoMoney _ (mark_token_failed-IsQuiet id)

record_event-NoMoney : (e : Event) → Steps NoMoney (record_event e)
record_event-NoMoney e = IsQuiet-NoMoney _ (record_event-IsQuiet e)

module _ {A : Type 0} (p : Payment) (tok : Option Token) (reason : String) where
  fail-NoMoney : Steps NoMoney (fail {A = A} p tok reason)
  unfolding fail
  fail-NoMoney =
      search
        (
          NoMoney-frame, steps_rules, mark_payment_failed-NoMoney, mark_token_failed-NoMoney,
          record_event-NoMoney,
        )
        depth 14

  -- no value comes back
  pub fail-Yields : {Q : A → World → Type 0} → Yields (fail {A = A} p tok reason) Q
  unfolding fail
  fail-Yields {Q} = search yields_rules depth 14

bind-failed :
    {A B : Type 0} (m : Action A) (k : A → Action B) (env : Env) (w : World)
    → ((a : A) → (m env w).0 ≡ ok a → ⊥)
    → (e : Error) × ((m >>= k) env w ≡ (err e, (m env w).1))
unfolding ◌>>=◌
bind-failed {A} {B} m k env w never = go (m env w).0 never
  where
    go :
        (r : Result A)
        → ((a : A) → r ≡ ok a → ⊥)
        → (e : Error) × (continue r k env (m env w).1 ≡ (err e, (m env w).1))
    go (ok a) none_back = absurd (none_back a refl)
    go (err e) none_back = (e, refl)

charge-declined :
    (p : Payment) (sender : User) (m : Mandate) (env : Env) (w : World)
    → is_declined (env.charge_authorization w.turn (charge_request env p sender m)) ≡ true
    → (e : Error) × (charge p sender m env w ≡ (
      err e,
      record w {
        turn = suc w.turn;
        exchanges =
            charged
              (charge_request env p sender m)
              (env.charge_authorization w.turn (charge_request env p sender m))
            ∷ w.exchanges;
      },
    ))
unfolding charge charge_authorization send uuid_string ◌>>=◌ require pure raise
charge-declined p sender m env w declined = go _ refl
  where
    go :
        (r : Result ChargeAuthorizationResponse)
        → env.charge_authorization w.turn (charge_request env p sender m) ≡ r
        → (e : Error) × (charge p sender m env w ≡ (
          err e,
          record w {
            turn = suc w.turn;
            exchanges =
                charged
                  (charge_request env p sender m)
                  (env.charge_authorization w.turn (charge_request env p sender m))
                ∷ w.exchanges;
          },
        ))
    go (err e) same = (e, ground arith)
    go (ok r) same = (
      failure ("paystack charge status=" ++ (status_text r.status ++ (": " ++ r.gateway_resp))),
      ground arith,
    )

-- the world once the declined charge is logged
abbrev pub logged : Env → Payment → User → Mandate → World → World
logged env p sender m w = record w {
  turn = suc w.turn;
  exchanges =
      charged (charge_request env p sender m)
        (env.charge_authorization w.turn (charge_request env p sender m))
      ∷ w.exchanges;
}

-- what a caller is told and what the world holds when money was asked for and none moved
abbrev pub Declined :
    {A : Type 0} → Env → Payment → User → Mandate → World → Result A × World → Type 0
Declined {A} env p sender m w out =
    (e : Error) × (out.0 ≡ err e)
    × (out.1.exchanges ≡ (logged env p sender m w).exchanges)
    × (out.1.ledger_entries ≡ w.ledger_entries)

after_failed_charge :
    {A : Type 0} (p : Payment) (tok : Option Token) (sender : User) (m : Mandate)
    (reason : Error → String) (rest : Payment → Action A) (env : Env) (w : World)
    → is_declined (env.charge_authorization w.turn (charge_request env p sender m)) ≡ true
    → Declined env p sender m w
        ((handle (charge p sender m) (λ e. fail p tok (reason e)) >>= rest) env w)
unfolding handle
after_failed_charge {A} p tok sender m reason rest env w declined =
    let (e, refused) = charge_declined_eq in
    let handled : handle (charge p sender m) (λ e. fail p tok (reason e)) env w
        ≡ fail p tok (reason e) env (logged env p sender m w) =
      ap (λ x. recover x.0 (λ e. fail p tok (reason e)) env x.1) refused in
    let (e', done) =
      bind-failed (handle (charge p sender m) (λ e. fail p tok (reason e))) rest env w (λ a back.
        (fail-Yields p tok (reason e) {Q = λ _ _. ⊥}).at env (logged env p sender m w) a
          (sym (ap (λ x. x.0) handled) ∙ back)) in
    let kept = (fail-NoMoney {A = Payment} p tok (reason e)).at env (logged env p sender m w) in
    (
      e',
      ap (λ x. x.0) done,
      ap (λ x. x.1.exchanges) done ∙ ap (λ x. x.1.exchanges) handled ∙ kept.exchanges,
      ap (λ x. x.1.ledger_entries) done ∙ ap (λ x. x.1.ledger_entries) handled ∙ kept.ledger,
    )
  where
    charge_declined_eq : (e : Error) × (charge p sender m env w ≡ (err e, logged env p sender m w))
    charge_declined_eq = charge-declined p sender m env w declined

-- Where Paystack declines the charge or the request fails, both the immediate and the held path
-- fail with an error, the log of requests has gained the charge and nothing else, and no ledger
-- entry is written: the receiver is not paid with money that the sender did not give.
pub orchestrate-Declined :
    (p : Payment) (sender receiver : User) (m : Mandate) (tok : Option Token) (window : ℕ)
    (env : Env) (w : World)
    → is_declined (env.charge_authorization w.turn (charge_request env p sender m)) ≡ true
    → Declined env p sender m w (orchestrate p sender receiver m tok env w)
      × Declined env p sender m w (orchestrate_held p sender receiver m tok window env w)
unfolding orchestrate orchestrate_held
orchestrate-Declined p sender receiver m tok window env w declined = (
  after_failed_charge p tok sender m (λ e. "charge: " ++ error_text e) _ env w declined,
  after_failed_charge p tok sender m (λ e. "charge: " ++ error_text e) _ env w declined,
)
