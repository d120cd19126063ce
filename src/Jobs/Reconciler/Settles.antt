-- ===== src/Jobs/Reconciler/Settles.antt =====
-- What the reconciler does where Paystack says that a transfer has landed.
use echopay.Common.{ℕ, suc, ◌≡◌, refl, ap, ◌∙◌, Option, none, some, find?, update_where, arith}
use echopay.Store.Models.{Payment, PaymentStatus, PaystackStatus}
use echopay.Store.Payments.{has_id, mark_payment_settled, update_payments}
use echopay.Store.Tokens.{mark_token_settled}
use echopay.Paystack.{Transfer}
use echopay.World.{Env, World, ok}
use echopay.Action.{ask, query, ◌>>=◌, ignore, on_some}
use echopay.Action.Steps.{Steps}
use echopay.Quiet.{IsQuiet, quiet_rules}
use echopay.Payments.Legs.{deref}
use echopay.Payments.Orchestrate.Rows.{find-updated}
use echopay.Jobs.Reconciler.{verify_transfer, settle, close_transfer, reconcile_transfer}

-- the row as it is once it is marked settled
abbrev pub settled_row : ℕ → Payment → Payment
settled_row t p = record p { status = PaymentStatus.settled; settled_at = some t; updated_at = t }

mark_token-IsQuiet :
    (token : Option ℕ) (id : ℕ)
    → Steps IsQuiet (on_some token (λ k. ignore (mark_token_settled k id)))
mark_token-IsQuiet token id = search quiet_rules depth 8

-- past the update that goes through, only the token is left
settle-passes :
    (p row : Payment) (env : Env) (w : World)
    → env.database_fault w.turn ≡ none
    → find? (has_id p.id) w.payments ≡ some row
    → settle p env w
      ≡ on_some p.token_id
          (λ k. ignore (mark_token_settled k p.id))
          env
          (record w {
            turn = suc w.turn;
            payments = update_where (has_id p.id) (settled_row (env.time w.turn)) w.payments;
          })
unfolding settle mark_payment_settled update_payments query ◌>>=◌
settle-passes p row env w quiet known = ground arith

reconcile_transfer-passes :
    (p : Payment) (t : Transfer) (env : Env) (w : World)
    → env.verify_transfer w.turn (deref p.transfer_reference "") ≡ ok t
    → t.status ≡ PaystackStatus.success
    → reconcile_transfer p env w ≡ settle p env (record w { turn = suc w.turn })
unfolding reconcile_transfer verify_transfer close_transfer ask ◌>>=◌
reconcile_transfer-passes p t env w answer landed = ground arith

-- Where Paystack says that the transfer of a payment has landed and the database does not fail, the
-- reconciler settles the row of the payment, asks Paystack for nothing more, and leaves the ledger
-- as it is: unlike the settlement and the webhook, it writes no pair of entries.
pub reconcile_transfer-unrecorded :
    (p row : Payment) (t : Transfer) (env : Env) (w : World)
    → env.verify_transfer w.turn (deref p.transfer_reference "") ≡ ok t
    → t.status ≡ PaystackStatus.success
    → env.database_fault (suc w.turn) ≡ none
    → find? (has_id p.id) w.payments ≡ some row
    → let w' = (reconcile_transfer p env w).1 in
      (find? (has_id p.id) w'.payments ≡ some (settled_row (env.time (suc w.turn)) row))
      × (w'.exchanges ≡ w.exchanges)
      × (w'.ledger_entries ≡ w.ledger_entries)
reconcile_transfer-unrecorded p row t env w answer landed quiet known =
    let v = record w { turn = suc w.turn } in
    let passed =
      reconcile_transfer-passes p t env w answer landed ∙ settle-passes p row env v quiet known in
    let still = (mark_token-IsQuiet p.token_id p.id).at env (record v {
      turn = suc v.turn;
      payments = update_where (has_id p.id) (settled_row (env.time v.turn)) v.payments;
    }) in
    let changed =
      find-updated p.id (settled_row (env.time (suc w.turn))) row w.payments (λ x. refl) known in
    (
      ap (λ out. find? (has_id p.id) out.1.payments) passed
          ∙ ap (λ ps. find? (has_id p.id) ps) still.payments
          ∙ changed,
      ap (λ out. out.1.exchanges) passed ∙ still.exchanges,
      ap (λ out. out.1.ledger_entries) passed ∙ still.ledger,
    )
