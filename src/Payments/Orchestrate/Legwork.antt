-- ===== src/Payments/Orchestrate/Legwork.antt =====
-- What each leg of a settlement that returns has done: the charge, the transfer, the pair of entries.
use Prim.Native.String.{◌++◌}
use echopay.Common.{ℕ, ◌≡◌, sym, ap, subst, ◌∙◌, String, true, some, ◌∷◌, find?, arith}
use echopay.Store.Models.{
  Payment, User, Mandate, PaymentStatus, LedgerEntry, Side, debit, credit, is_success,
}
use echopay.Store.Payments.{has_id, update_payment_charge, update_payment_transfer}
use echopay.World.{Env, World, ok, charged, recipient_made, transferred}
use echopay.Action.{pure}
use echopay.Action.Ends.{
  bind_then, send-ends, uuid_string-ends, within-ends, query-ends, require-ends,
}
use echopay.Paystack.{
  ChargeAuthorizationResponse, TransferRequest, Transfer, CreateRecipientRequest, Recipient,
}
use echopay.Payments.Orchestrate.Rows.{Carries, update_payments-ends}
use echopay.Payments.Legs.{
  charge_authorization, create_recipient, initiate_transfer, charge, transfer, deref,
}
use echopay.Ledger.{record_entry, record_payment_pair}
use echopay.Store.Records.{insert_ledger_entry}
use echopay.Payments.Orchestrate.Declined.{charge_request}

pub charge-ends :
    (p : Payment) (sender : User) (m : Mandate) (env : Env) (w w' : World) (q : Payment)
    → find? (has_id p.id) w.payments ≡ some p
    → charge p sender m env w ≡ (ok q, w')
    → (c : ChargeAuthorizationResponse) × (is_success c.status ≡ true)
      × (w'.exchanges ≡ charged (charge_request env p sender m) (ok c) ∷ w.exchanges)
      × (q.status ≡ PaymentStatus.transferring)
      × Carries p w q w'
unfolding charge charge_authorization update_payment_charge
charge-ends p sender m env w w' q known done =
    let d1 = uuid_string-ends sender.id _ env w _ done in
    let d2 = uuid_string-ends p.id _ env w _ d1 in
    bind_then _ _ env w w' q d2 λ c w3 sent d3. bind_then _ _ env w3 w' q d3 λ _ w4 checked d4.
      let (answer, logged) = send-ends _ _ env w w3 c sent in
      let (success, same) = require-ends _ _ env w3 w4 checked in
      let d5 = within-ends _ _ env w4 w' q d4 in
      let here = sym same ∙ logged in
      let (row, quiet, carried) =
        update_payments-ends
          (λ t x. record x {
            charge_reference = some c.reference;
            charge_status = some c.status;
            status = PaymentStatus.transferring;
            updated_at = t;
          })
          env w4 w' p q (λ t x. ground arith)
          (subst (λ v. find? (has_id p.id) v.payments ≡ some p) (sym here) known) d5 in
      (
        c,
        success,
        quiet ∙ ap (λ v. v.exchanges) here,
        ap (λ x. x.status) row,
        record {
          row = carried.row;
          terms = carried.terms;
          ledger = carried.ledger ∙ ap (λ v. v.ledger_entries) here;
        },
      )

-- the requests of the transfer leg
abbrev pub recipient_request : User → CreateRecipientRequest
recipient_request receiver = record {
  name = deref receiver.account_name receiver.phone;
  account_number = deref receiver.nuban "";
  bank_code = deref receiver.bank_code "";
}

abbrev pub transfer_request : Env → Payment → Recipient → TransferRequest
transfer_request env p r = record {
  source = "balance";
  amount = p.amount_kobo;
  recipient = r.recipient_code;
  reason = "EchoPay NG payment";
  reference = "TXF_" ++ env.uuid_text p.id;
}

pub transfer-ends :
    (p : Payment) (receiver : User) (env : Env) (w w' : World) (q : Payment)
    → find? (has_id p.id) w.payments ≡ some p
    → transfer p receiver env w ≡ (ok q, w')
    → (r : Recipient) × (t : Transfer) × (w'.exchanges
        ≡ transferred (transfer_request env p r) (ok t)
          ∷ recipient_made (recipient_request receiver) (ok r)
          ∷ w.exchanges)
      × (q.charge_reference ≡ p.charge_reference)
      × Carries p w q w'
unfolding transfer create_recipient initiate_transfer update_payment_transfer
transfer-ends p receiver env w w' q known done = bind_then _ _ env w w' q done λ r w1 made d1.
    let (answer, logged) = send-ends _ _ env w w1 r (within-ends _ _ env w w1 r made) in
    let d2 = uuid_string-ends p.id _ env w1 _ d1 in
    bind_then _ _ env w1 w' q d2 λ t w2 sent d3.
      let (answer', logged') = send-ends _ _ env w1 w2 t (within-ends _ _ env w1 w2 t sent) in
      let payments = ap (λ v. v.payments) logged' ∙ ap (λ v. v.payments) logged in
      let exchanges =
        ap (λ v. v.exchanges) logged'
        ∙ ap (λ xs. transferred (transfer_request env p r) (ok t) ∷ xs)
            (ap (λ v. v.exchanges) logged) in
      let ledger = ap (λ v. v.ledger_entries) logged' ∙ ap (λ v. v.ledger_entries) logged in
      let (row, quiet, carried) =
        update_payments-ends
          (λ n x. record x {
            transfer_reference = some t.reference;
            transfer_status = some t.status;
            status = PaymentStatus.settling;
            updated_at = n;
          })
          env w2 w' p q (λ n x. ground arith)
          (subst (λ ps. find? (has_id p.id) ps ≡ some p) (sym payments) known)
          (within-ends _ _ env w2 w' q d3) in
      (
        r,
        t,
        quiet ∙ exchanges,
        ap (λ x. x.charge_reference) row,
        record { row = carried.row; terms = carried.terms; ledger = carried.ledger ∙ ledger },
      )

abbrev pub entry : Payment → ℕ → Side → String → ℕ → LedgerEntry
entry p user side ref t = record {
  payment_id = p.id;
  user_id = user;
  side = side;
  amount_kobo = p.amount_kobo;
  reference = ref;
  created_at = t;
}

record_entry-ends :
    (p : Payment) (user : ℕ) (side : Side) (ref : String) (env : Env) (w w' : World)
    (e : LedgerEntry)
    → insert_ledger_entry p.id user side p.amount_kobo ref env w ≡ (ok e, w')
    → (t : ℕ) × (w'.ledger_entries ≡ entry p user side ref t ∷ w.ledger_entries)
      × (w'.payments ≡ w.payments)
      × (w'.exchanges ≡ w.exchanges)
unfolding insert_ledger_entry
record_entry-ends p user side ref env w w' e done =
    let stepped = query-ends _ env w w' e done in
    (env.time w.turn, ground arith, ground arith, ground arith)

pub pair-ends :
    (p : Payment) (ref : String) (env : Env) (w w' : World)
    → record_payment_pair p.id p.sender_user_id p.receiver_user_id p.amount_kobo ref env w
      ≡ (ok tt, w')
    → (t t' : ℕ) × (w'.ledger_entries
        ≡ entry p p.receiver_user_id credit ref t'
          ∷ entry p p.sender_user_id debit ref t
          ∷ w.ledger_entries)
      × (w'.payments ≡ w.payments)
      × (w'.exchanges ≡ w.exchanges)
unfolding record_payment_pair record_entry pure
pair-ends p ref env w w' done = bind_then _ _ env w w' tt done λ e w1 debited d1.
    bind_then _ _ env w1 w' tt d1 λ e' w2 credited d2.
      let (t, l, ps, xs) =
        record_entry-ends p p.sender_user_id debit ref env w w1 e
          (within-ends _ _ env w w1 e debited) in
      let (t', l', ps', xs') =
        record_entry-ends p p.receiver_user_id credit ref env w1 w2 e'
          (within-ends _ _ env w1 w2 e' credited) in
      let last = sym (ap (λ x. x.1) d2) in
      (
        t,
        t',
        ap (λ v. v.ledger_entries) last
            ∙ l'
            ∙ ap (λ es. entry p p.receiver_user_id credit ref t' ∷ es) l,
        ap (λ v. v.payments) last ∙ ps' ∙ ps,
        ap (λ v. v.exchanges) last ∙ xs' ∙ xs,
      )
