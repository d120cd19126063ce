-- ===== src/Payments/Orchestrate/Settled.antt =====
-- What a settlement that returns has done.
use echopay.Common.{
  ℕ, ◌≡◌, sym, ap, subst, ◌∙◌, String, Option, some, List, ◌∷◌, find?, true, arith,
}
use echopay.Push.{notify_payment_received}
use echopay.Store.Tokens.{mark_token_settled}
use echopay.Store.Models.{
  LedgerEntry, Payment, User, Mandate, Token, PaymentStatus, debit, credit, is_success,
}
use echopay.Store.Payments.{has_id, mark_payment_settled}
use echopay.Store.Terms.{SameTerms, SameTerms-trans}
use echopay.Paystack.{ChargeAuthorizationResponse, Recipient, Transfer}
use echopay.World.{Env, World, ok, charged, recipient_made, transferred}
use echopay.Action.{Action, pure, ◌>>◌, within, on_some}
use echopay.Action.Steps.{Steps}
use echopay.Action.Ends.{bind_then, handle-ends, within-ends}
use echopay.Action.Yields.{Yields, Yields-pure, yields_rules}
use echopay.Quiet.{IsQuiet, quiet_rules}
use echopay.Payments.Legs.{deref, sender_name}
use echopay.Payments.Orchestrate.{audit_side, orchestrate}
use echopay.Payments.Orchestrate.Declined.{charge_request, fail-Yields}
use echopay.Payments.Orchestrate.Rows.{Carries, update_payments-ends}
use echopay.Payments.Orchestrate.Legwork.{
  charge-ends, transfer-ends, pair-ends, entry, recipient_request, transfer_request,
}

-- The money of a payment `p` has gone through once, and the books say so: Paystack has charged the
-- sender and transferred the same amount, in this order; the ledger has a debit of the sender and a
-- credit of the receiver, of that amount; and the row is settled, with its terms.
pub record Settlement (env : Env) (p : Payment) (sender receiver : User) (m : Mandate) (w : World)
    (q : Payment) (w' : World) : Type 0 where
  pub charge : ChargeAuthorizationResponse
  pub took : is_success charge.status ≡ true
  pub recipient : Recipient
  pub transfer : Transfer
  pub requests :
      w'.exchanges
      ≡ transferred (transfer_request env p recipient) (ok transfer)
        ∷ recipient_made (recipient_request receiver) (ok recipient)
        ∷ charged (charge_request env p sender m) (ok charge)
        ∷ w.exchanges
  pub debited_at : ℕ
  pub credited_at : ℕ
  pub reference : String
  pub entries :
      w'.ledger_entries
      ≡ entry p p.receiver_user_id credit reference credited_at
        ∷ entry p p.sender_user_id debit reference debited_at
        ∷ w.ledger_entries
  pub settled : q.status ≡ PaymentStatus.settled
  pub terms : SameTerms p q
  pub row : find? (has_id p.id) w'.payments ≡ some q

audit_side-IsQuiet :
    (p : Payment) (user : ℕ) (role : String) → Steps IsQuiet (audit_side p user role)
unfolding audit_side
audit_side-IsQuiet p user role = search quiet_rules depth 8

-- the end of a block, which moves no money and returns `a`
pub returns_unmoved :
    (m : Action Payment) (env : Env) (v w' : World) (q a : Payment)
    → m env v ≡ (ok q, w')
    → Steps IsQuiet m
    → Yields m (λ b _. b ≡ a)
    → IsQuiet v w' × (q ≡ a)
returns_unmoved m env v w' q a done quiet gives = (
  subst (λ x. IsQuiet v x) (ap (λ x. x.1) done) (quiet.at env v),
  gives.at env v q (ap (λ x. x.0) done),
)

-- the end of `orchestrate`, once the payment is settled
announced :
    (tok : Option Token) (sender : User) (settled : Payment) (env : Env) (v w' : World)
    (q : Payment)
    → (do
      on_some tok (λ k. within "mark token settled" (mark_token_settled k.id settled.id) >> pure tt)
      notify_payment_received settled (sender_name sender)
      audit_side settled settled.sender_user_id "sender"
      audit_side settled settled.receiver_user_id "receiver"
      pure settled)
        env v
      ≡ (ok q, w')
    → IsQuiet v w' × (q ≡ settled)
announced tok sender settled env v w' q done =
    returns_unmoved
      (do
        on_some tok
            (λ k. within "mark token settled" (mark_token_settled k.id settled.id) >> pure tt)
        notify_payment_received settled (sender_name sender)
        audit_side settled settled.sender_user_id "sender"
        audit_side settled settled.receiver_user_id "receiver"
        pure settled)
      env v w' q settled done (search (quiet_rules, audit_side-IsQuiet) depth 12)
      (search (yields_rules, Yields-pure) depth 12)

pub transfer_request-same :
    (env : Env) (p q : Payment) (r : Recipient)
    → SameTerms p q
    → transfer_request env q r ≡ transfer_request env p r
transfer_request-same env p q r h = cc (h.id, h.amount)

pub entries-same :
    (p q : Payment) (ref : String) (n n' : ℕ) (es : List LedgerEntry)
    → SameTerms p q
    → entry q q.receiver_user_id credit ref n' ∷ entry q q.sender_user_id debit ref n ∷ es
      ≡ entry p p.receiver_user_id credit ref n' ∷ entry p p.sender_user_id debit ref n ∷ es
entries-same p q ref n n' es h = cc (h.id, h.amount, h.sender, h.receiver)

pub own_row :
    {p q : Payment} {w w' : World} → Carries p w q w' → find? (has_id q.id) w'.payments ≡ some q
own_row {p} {q} {w} {w'} h =
    subst (λ id. find? (has_id id) w'.payments ≡ some q) (sym h.terms.id) h.row

-- Where `orchestrate` returns a payment, and the payment that it was given is the row of its id, the
-- settlement has taken place: exactly three requests went to Paystack, the charge, which succeeded,
-- the recipient and the transfer of the same amount; the ledger has gained the two entries of that
-- amount and nothing else; and the row is settled and has kept its terms.
pub orchestrate-Settlement :
    (p : Payment) (sender receiver : User) (m : Mandate) (tok : Option Token) (env : Env)
    (w w' : World) (q : Payment)
    → find? (has_id p.id) w.payments ≡ some p
    → orchestrate p sender receiver m tok env w ≡ (ok q, w')
    → Settlement env p sender receiver m w q w'
unfolding orchestrate mark_payment_settled
orchestrate-Settlement p sender receiver m tok env w w' q known done =
    bind_then _ _ env w w' q done λ p1 w1 first d1. bind_then _ _ env w1 w' q d1 λ p2 w2 second d2.
      bind_then _ _ env w2 w' q d2 λ _ w3 third d3. bind_then _ _ env w3 w' q d3 λ p4 w4 fourth d4.
        let (c, took, xs, moved, carried) =
          charge-ends p sender m env w w1 p1 known
            (handle-ends _ _ env w w1 p1 (λ e. fail-Yields p tok _) first) in
        let (r, t, xs1, ref, carried1) =
          transfer-ends p1 receiver env w1 w2 p2 (own_row carried)
            (handle-ends _ _ env w1 w2 p2 (λ e. fail-Yields p1 tok _) second) in
        let (n, n', es, ps2, xs2) =
          pair-ends p2 _ env w2 w3
            (handle-ends _ _ env w2 w3 tt (λ e. fail-Yields p2 tok _) third) in
        let (row, xs3, carried3) =
          update_payments-ends
            (λ t x. record x {
              status = PaymentStatus.settled;
              settled_at = some t;
              updated_at = t;
            })
            env w3 w4 p2 p4 (λ t x. ground arith)
            (subst (λ ps. find? (has_id p2.id) ps ≡ some p2) (sym ps2) (own_row carried1))
            (within-ends _ _ env w3 w4 p4 fourth) in
        let (quiet, same) = announced tok sender p4 env w4 w' q d4 in
        let terms = SameTerms-trans carried.terms carried1.terms in
        record {
          charge = c;
          took = took;
          recipient = r;
          transfer = t;
          requests =
              quiet.exchanges
              ∙ xs3
              ∙ xs2
              ∙ xs1
              ∙ ap
                  (λ x.
                    transferred x (ok t)
                    ∷ recipient_made (recipient_request receiver) (ok r)
                    ∷ w1.exchanges)
                  (transfer_request-same env p p1 r carried.terms)
              ∙ ap
                  (λ l.
                    transferred (transfer_request env p r) (ok t)
                    ∷ recipient_made (recipient_request receiver) (ok r)
                    ∷ l)
                  xs;
          debited_at = n;
          credited_at = n';
          reference = deref p2.charge_reference "";
          entries =
              quiet.ledger
              ∙ carried3.ledger
              ∙ es
              ∙ entries-same p p2 _ n n' _ terms
              ∙ ap
                  (λ l.
                    entry p p.receiver_user_id credit (deref p2.charge_reference "") n'
                    ∷ entry p p.sender_user_id debit (deref p2.charge_reference "") n
                    ∷ l)
                  (carried1.ledger ∙ carried.ledger);
          settled = ap (λ x. x.status) (same ∙ row);
          terms = subst (λ z. SameTerms p z) (sym same) (SameTerms-trans terms carried3.terms);
          row = cc (carried3.row, quiet.payments, terms.id, same);
        }
