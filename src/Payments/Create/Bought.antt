-- ===== src/Payments/Create/Bought.antt =====
-- What a Create that returns has done, from the claim of the token to the settled or held payment.
use echopay.Common.{
  suc, ◌≢◌, ◌≤◌, ◌≡◌, ap, subst, ◌∙◌, true, none, some, find?, arith, ◌==◌, str_eq, is_positive,
}
use echopay.Store.Models.{Payment, User, Mandate, Token, TokenStatus, is_active}
use echopay.World.{Env, World, ok}
use echopay.Action.{pure, or_else}
use echopay.Action.Ends.{bind_then, within-ends}
use echopay.Quiet.{IsQuiet-frame, get_user_by_id-IsQuiet, claim-IsQuiet, validated_mandate-IsQuiet}
use echopay.Tokens.Once.{claim_sound}
use echopay.Payments.Types.{CreateRequest, Receipt}
use echopay.Payments.Checks.{has_bank_details}
use echopay.Payments.Create.Parts.{
  validated_mandate-ends, get_user_by_id-ticks, idempotent_return-ends,
}
use echopay.Payments.Create.{create_fresh, create}
use echopay.Payments.Hold.Released.{ends_unmoved, get_user_by_id-ends}
use echopay.Payments.Create.PayToken.{Paid, pay_token-ends}

-- A payment that is bought with the token of a request: sender and mandate are the rows that it
-- names, the mandate is the sender's and active, the token of its code was somebody else's, and one with
-- the same id is claimed by the sender, its amount is within the sender's limit on one transaction, the
-- receiver is the row of the issuer of the token, and the money has moved for a new row, with the key of the request and the terms of
-- the token: at once, or, with an undo window, up to the hold. Before that nothing was requested and
-- nothing entered in the ledger.
pub record Bought (env : Env) (req : CreateRequest) (w : World) (r : Receipt) (w' : World)
    : Type 0 where
  pub sender : User
  pub sender_is : find? (λ u. u.id == req.sender_user_id) w.users ≡ some sender
  pub mandate : Mandate
  pub mandate_is : find? (λ x. x.id == req.mandate_id) w.mandates ≡ some mandate
  pub owned : mandate.user_id ≡ req.sender_user_id
  pub active : is_active mandate.status ≡ true
  pub shown : Token
  pub shown_is : find? (λ x. str_eq x.code req.token_code) w.tokens ≡ some shown
  pub foreign : shown.issued_by_user_id ≢ req.sender_user_id
  pub token : Token
  pub same_token : token.id ≡ shown.id
  pub token_is : r.token ≡ some token
  pub claimed : token.status ≡ TokenStatus.claimed
  pub claimed_by : token.claimed_by_user_id ≡ some req.sender_user_id
  pub within_limit : token.amount_kobo ≤ sender.per_tx_limit_kobo
  pub receiver : User
  pub receiver_is : find? (λ u. u.id == token.issued_by_user_id) w.users ≡ some receiver
  pub receiver_can_be_paid : has_bank_details receiver ≡ true
  pub payment : Payment
  pub amount : payment.amount_kobo ≡ token.amount_kobo
  pub key : payment.idempotency_key ≡ req.idempotency_key
  pub paid_by : payment.sender_user_id ≡ req.sender_user_id
  pub paid_to : payment.receiver_user_id ≡ token.issued_by_user_id
  pub with_token : payment.token_id ≡ some token.id
  pub started : World
  pub nothing_requested : started.exchanges ≡ w.exchanges
  pub nothing_entered : started.ledger_entries ≡ w.ledger_entries
  pub outcome :
      Paid
        (is_positive req.undo_window)
        env
        req
        payment
        sender
        receiver
        mandate
        started
        r.payment
        w'

returned :
    (q : Payment) (tok : Token) (r : Receipt) (env : Env) (v w' : World)
    → pure {A = Receipt} (record { payment = q; token = some tok }) env v ≡ (ok r, w')
    → (q ≡ r.payment) × (r.token ≡ some tok) × (v ≡ w')
unfolding pure
returned q tok r env v w' done =
    let answer = ap (λ x. x.0) done in
    (ground (arith, answer), ground (arith, answer), ap (λ x. x.1) done)

-- Where no payment has the idempotency key of the request and Create returns a receipt, a payment has
-- been bought as `Bought` says: for the sender and with the mandate that the request names, an active
-- one of the sender, with the token of the code, which another had issued and the sender has claimed,
-- within the limit on one transaction, for the issuer of the token as receiver, who has bank details,
-- and with the money moved for the amount of the token, once, up to the hold or to the settlement.
pub create-Bought :
    (req : CreateRequest) (env : Env) (w w' : World) (r : Receipt)
    → find? (λ p. str_eq p.idempotency_key req.idempotency_key) w.payments ≡ none
    → create req env w ≡ (ok r, w')
    → Bought env req w r w'
unfolding create create_fresh or_else pure
create-Bought req env w w' r fresh done = bind_then _ _ env w w' r done λ known w1 first d1.
    let (nothing, ticked) = idempotent_return-ends req.idempotency_key env w w1 known fresh first in
    let d2 = subst (λ k. or_else k (create_fresh req) env w1 ≡ (ok r, w')) nothing d1 in
    bind_then _ _ env w1 w' r d2 λ sender w2 second d3.
      bind_then _ _ env w2 w' r d3 λ m w3 third d4. bind_then _ _ env w3 w' r d4 λ tok w4 fourth d5.
        bind_then _ _ env w4 w' r d5 λ q w5 fifth d6.
          let loading = within-ends _ _ env w1 w2 sender second in
          let (stored, mine, active, ticked3) =
            validated_mandate-ends req.mandate_id _ env w2 w3 m third in
          let (shown, shown_is, foreign, same_token, claimed, claimed_by, _, _, _) =
            claim_sound req.token_code req.sender_user_id env w3 tok (ap (λ x. x.0) fourth) in
          let (
            receiver, p, v, receiver_is, bank, low, amount, key, payer, payee, with_token, xs, es,
            outcome,
          ) =
            pay_token-ends req sender m tok env w4 w5 q fifth in
          let claiming =
            ends_unmoved _ env w3 w4 tok (claim-IsQuiet req.token_code req.sender_user_id) fourth in
          let before =
            IsQuiet-frame.goes_on w1 w3 w4
              (IsQuiet-frame.goes_on w1 w2 w3
                (ends_unmoved _ env w1 w2 sender (get_user_by_id-IsQuiet _) loading)
                (ends_unmoved _ env w2 w3 m
                  (validated_mandate-IsQuiet req.mandate_id req.sender_user_id) third))
              claiming in
          let loaded : w2 ≡ record w { turn = suc (suc w.turn) } =
            get_user_by_id-ticks req.sender_user_id env w1 w2 sender loading
            ∙ ap (λ (z : World). record z { turn = suc z.turn }) ticked in
          let checked : w3 ≡ record w { turn = suc (suc (suc w.turn)) } =
            ticked3 ∙ ap (λ (z : World). record z { turn = suc z.turn }) loaded in
          let (paid, with_receipt, last) = returned q tok r env w5 w' d6 in
          record {
            sender = sender;
            sender_is =
                subst (λ z. find? (λ u. u.id == req.sender_user_id) z.users ≡ some sender) ticked
                  (get_user_by_id-ends req.sender_user_id env w1 w2 sender loading);
            mandate = m;
            mandate_is =
                subst (λ z. find? (λ x. x.id == req.mandate_id) z.mandates ≡ some m) loaded stored;
            owned = mine;
            active = active;
            shown = shown;
            shown_is =
                subst (λ z. find? (λ x. str_eq x.code req.token_code) z.tokens ≡ some shown) checked
                  shown_is;
            foreign = foreign;
            token = tok;
            same_token = same_token;
            token_is = with_receipt;
            claimed = claimed;
            claimed_by = claimed_by;
            within_limit = low;
            receiver = receiver;
            receiver_is =
                subst (λ us. find? (λ u. u.id == tok.issued_by_user_id) us ≡ some receiver)
                  (claiming.users ∙ ap (λ z. z.users) checked) receiver_is;
            receiver_can_be_paid = bank;
            payment = p;
            amount = amount;
            key = key;
            paid_by = payer;
            paid_to = payee;
            with_token = with_token;
            started = v;
            nothing_requested = xs ∙ before.exchanges ∙ ap (λ z. z.exchanges) ticked;
            nothing_entered = es ∙ before.ledger ∙ ap (λ z. z.ledger_entries) ticked;
            outcome =
                subst
                  (λ z.
                    Paid (is_positive req.undo_window) env req p sender receiver m v r.payment z)
                  last
                  (subst
                    (λ z. Paid (is_positive req.undo_window) env req p sender receiver m v z w5)
                    paid outcome);
          }
