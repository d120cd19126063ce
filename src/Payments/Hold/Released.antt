-- ===== src/Payments/Hold/Released.antt =====
-- What the release of a hold that goes through has done.
use echopay.Common.{ℕ, ◌≡◌, sym, ap, subst, ◌∙◌, Option, none, some, ◌∷◌, find?, arith, ◌==◌}
use echopay.Store.Models.{Payment, User, Token, PaymentStatus, debit, credit}
use echopay.Store.Query.{select_one}
use echopay.Store.Users.{get_user_by_id}
use echopay.Store.Payments.{has_id, mark_payment_settled}
use echopay.Store.Tokens.{mark_token_settled}
use echopay.Store.Terms.{SameTerms, SameTerms-trans}
use echopay.Paystack.{Recipient, Transfer}
use echopay.World.{Env, World, ok, recipient_made, transferred}
use echopay.Action.{Action, ◌>>◌, ignore, on_some}
use echopay.Action.Steps.{Steps}
use echopay.Action.Ends.{bind_then, handle-ends, query-ends}
use echopay.Push.{notify_payment_received}
use echopay.Quiet.{
  IsQuiet, IsQuiet-frame, quiet_rules, get_user_by_id-IsQuiet, get_token_by_id-IsQuiet,
}
use echopay.Payments.Legs.{deref, sender_name}
use echopay.Payments.Hold.{load_token, complete_release}
use echopay.Payments.Orchestrate.Declined.{fail-Yields}
use echopay.Payments.Orchestrate.Settled.{own_row, entries-same}
use echopay.Payments.Orchestrate.Rows.{update_payments-ends}
use echopay.Payments.Orchestrate.Legwork.{
  transfer-ends, pair-ends, entry, recipient_request, transfer_request,
}

-- The second half of a held payment `p`: the transfer to the receiver's account, the pair of entries,
-- and the settled row. No charge is requested again.
pub record Released (env : Env) (p : Payment) (w w' : World) : Type 0 where
  pub receiver : User
  pub paid_to : find? (λ u. u.id == p.receiver_user_id) w.users ≡ some receiver
  pub recipient : Recipient
  pub transfer : Transfer
  pub requests :
      w'.exchanges
      ≡ transferred (transfer_request env p recipient) (ok transfer)
        ∷ recipient_made (recipient_request receiver) (ok recipient)
        ∷ w.exchanges
  pub debited_at : ℕ
  pub credited_at : ℕ
  pub entries :
      w'.ledger_entries
      ≡ entry p p.receiver_user_id credit (deref p.charge_reference "") credited_at
        ∷ entry p p.sender_user_id debit (deref p.charge_reference "") debited_at
        ∷ w.ledger_entries
  pub settled_row : Payment
  pub settled : settled_row.status ≡ PaymentStatus.settled
  pub terms : SameTerms p settled_row
  pub row : find? (has_id p.id) w'.payments ≡ some settled_row

pub get_user_by_id-ends :
    (id : ℕ) (env : Env) (w w' : World) (u : User)
    → get_user_by_id id env w ≡ (ok u, w')
    → find? (λ x. x.id == id) w.users ≡ some u
unfolding get_user_by_id select_one
get_user_by_id-ends id env w w' u done = let stepped = query-ends _ env w w' u done in ground arith

load_token-IsQuiet : (id : Option ℕ) → Steps IsQuiet (load_token id)
unfolding load_token
load_token-IsQuiet none = search quiet_rules
load_token-IsQuiet (some id) = search (quiet_rules, get_token_by_id-IsQuiet) depth 8

-- a quiet action leaves the money as it is in the world that it ends in
pub ends_unmoved :
    {A : Type 0} (m : Action A) (env : Env) (w w' : World) (a : A)
    → Steps IsQuiet m
    → m env w ≡ (ok a, w')
    → IsQuiet w w'
ends_unmoved m env w w' a quiet done =
    subst (λ x. IsQuiet w x) (ap (λ x. x.1) done) (quiet.at env w)

-- the end of `releaseHold`, once the payment is settled
announced :
    (tok : Option Token) (sender : User) (settled : Payment) (env : Env) (v w' : World)
    → (on_some tok (λ k. ignore (mark_token_settled k.id settled.id))
          >> notify_payment_received settled (sender_name sender))
        env v
      ≡ (ok tt, w')
    → IsQuiet v w'
announced tok sender settled env v w' done =
    ends_unmoved
      (on_some tok (λ k. ignore (mark_token_settled k.id settled.id))
        >> notify_payment_received settled (sender_name sender))
      env v w' tt (search quiet_rules depth 12) done

-- Where what follows a release returns without an error, and the payment that was released is the row
-- of its id: exactly the recipient and the transfer of the whole amount, to the account of the
-- receiver, were requested; the ledger has gained the two entries of that amount and nothing else; and
-- the row is settled and has kept its terms.
pub complete_release-Released :
    (p : Payment) (env : Env) (w w' : World)
    → find? (has_id p.id) w.payments ≡ some p
    → complete_release p env w ≡ (ok tt, w')
    → Released env p w w'
unfolding complete_release mark_payment_settled
complete_release-Released p env w w' known done =
    bind_then _ _ env w w' tt done λ receiver w1 first d1.
      bind_then _ _ env w1 w' tt d1 λ sender w2 second d2.
        bind_then _ _ env w2 w' tt d2 λ tok w3 third d3.
          bind_then _ _ env w3 w' tt d3 λ p2 w4 fourth d4.
            bind_then _ _ env w4 w' tt d4 λ _ w5 fifth d5.
              bind_then _ _ env w5 w' tt d5 λ p4 w6 sixth d6.
                let loaded =
                  IsQuiet-frame.goes_on w w2 w3
                    (IsQuiet-frame.goes_on w w1 w2
                      (ends_unmoved _ env w w1 receiver (get_user_by_id-IsQuiet _) first)
                      (ends_unmoved _ env w1 w2 sender (get_user_by_id-IsQuiet _) second))
                    (ends_unmoved _ env w2 w3 tok (load_token-IsQuiet _) third) in
                let (r, t, xs, ref, carried) =
                  transfer-ends p receiver env w3 w4 p2
                    (subst (λ ps. find? (has_id p.id) ps ≡ some p) (sym loaded.payments) known)
                    (handle-ends _ _ env w3 w4 p2 (λ e. fail-Yields p tok _) fourth) in
                let (n, n', es, ps, xs1) =
                  pair-ends p2 _ env w4 w5
                    (handle-ends _ _ env w4 w5 tt (λ e. fail-Yields p2 tok _) fifth) in
                let (row, xs2, carried1) =
                  update_payments-ends
                    (λ t x. record x {
                      status = PaymentStatus.settled;
                      settled_at = some t;
                      updated_at = t;
                    })
                    env w5 w6 p2 p4 (λ t x. ground arith)
                    (subst (λ ps. find? (has_id p2.id) ps ≡ some p2) (sym ps) (own_row carried))
                    sixth in
                let quiet = announced tok sender p4 env w6 w' d6 in
                record {
                  receiver = receiver;
                  paid_to = get_user_by_id-ends _ env w w1 receiver first;
                  recipient = r;
                  transfer = t;
                  requests =
                      quiet.exchanges
                      ∙ xs2
                      ∙ xs1
                      ∙ xs
                      ∙ ap
                          (λ l.
                            transferred (transfer_request env p r) (ok t)
                            ∷ recipient_made (recipient_request receiver) (ok r)
                            ∷ l)
                          loaded.exchanges;
                  debited_at = n;
                  credited_at = n';
                  entries =
                      quiet.ledger
                      ∙ carried1.ledger
                      ∙ es
                      ∙ entries-same p p2 _ n n' _ carried.terms
                      ∙ ap
                          (λ l.
                            entry p p.receiver_user_id credit (deref p2.charge_reference "") n'
                            ∷ entry p p.sender_user_id debit (deref p2.charge_reference "") n
                            ∷ l)
                          (carried.ledger ∙ loaded.ledger)
                      ∙ ap
                          (λ c.
                            entry p p.receiver_user_id credit (deref c "") n'
                            ∷ entry p p.sender_user_id debit (deref c "") n
                            ∷ w.ledger_entries)
                          ref;
                  settled_row = p4;
                  settled = ap (λ x. x.status) row;
                  terms = SameTerms-trans carried.terms carried1.terms;
                  row = cc (carried1.row, quiet.payments, carried.terms.id);
                }
