-- ===== src/Payments/Create/Repaid.antt =====
-- What a Refund that returns has done.
use echopay.Common.{
  ℕ, ◌<◌, ◌≤◌, ◌≡◌, ap, subst, ◌∙◌, true, none, some, find?, arith, ◌==◌, ==_eq, str_eq, ℤ, pos,
  pos_part, negsuc,
}
use echopay.Store.Models.{Payment, PaymentStatus, User, Mandate, same_status, is_active}
use echopay.Store.Query.{select_one}
use echopay.Store.Payments.{has_id, get_payment_by_id}
use echopay.World.{Env, World, ok}
use echopay.Action.{pure, or_else}
use echopay.Action.Ends.{bind_then, within-ends, rows_or-ends, query-ends, require-ends}
use echopay.Quiet.{
  IsQuiet, IsQuiet-frame, get_user_by_id-IsQuiet, get_payment_by_id-IsQuiet,
  validated_mandate-IsQuiet, enforce_limits-IsQuiet, idempotent_return-IsQuiet,
}
use echopay.Payments.Types.{RefundRequest, Receipt}
use echopay.Payments.Checks.{has_bank_details}
use echopay.Payments.Checks.Sound.{enforce_limits_sound}
use echopay.Payments.Create.{is_refundable_amount, pay_back, refund_fresh, refund}
use echopay.Payments.Create.Parts.{
  create_payment-ends, validated_mandate-ends, idempotent_return-ends,
}
use echopay.Payments.Orchestrate.Settled.{Settlement, orchestrate-Settlement}
use echopay.Payments.Hold.Released.{ends_unmoved, get_user_by_id-ends}

-- A refund that is made: of a settled payment that the refunder received, of a positive amount that is
-- at most the payment's and within the refunder's limit on one transaction; a new row of this amount
-- from the refunder goes back to the original sender, linked to the original, and is settled. The
-- original, the mandate, the refunder and the payee are the rows that the request and the original name.
pub record Repaid (env : Env) (req : RefundRequest) (w : World) (r : Receipt) (w' : World)
    : Type 0 where
  pub original : Payment
  pub original_is : find? (has_id req.original_payment_id) w.payments ≡ some original
  pub received : original.receiver_user_id ≡ req.refunder_user_id
  pub was_settled : original.status ≡ PaymentStatus.settled
  pub amount_positive : 0 < pos_part req.amount_kobo
  pub amount_bounded : pos_part req.amount_kobo ≤ original.amount_kobo
  pub mandate : Mandate
  pub mandate_is : find? (λ x. x.id == req.mandate_id) w.mandates ≡ some mandate
  pub owned : mandate.user_id ≡ req.refunder_user_id
  pub active : is_active mandate.status ≡ true
  pub refunder : User
  pub refunder_is : find? (λ u. u.id == req.refunder_user_id) w.users ≡ some refunder
  pub within_limit : pos_part req.amount_kobo ≤ refunder.per_tx_limit_kobo
  pub payee : User
  pub payee_is : find? (λ u. u.id == original.sender_user_id) w.users ≡ some payee
  pub payee_can_be_paid : has_bank_details payee ≡ true
  pub payment : Payment
  pub amount : payment.amount_kobo ≡ pos_part req.amount_kobo
  pub key : payment.idempotency_key ≡ req.idempotency_key
  pub paid_by : payment.sender_user_id ≡ req.refunder_user_id
  pub paid_to : payment.receiver_user_id ≡ original.sender_user_id
  pub linked : payment.refunds_payment_id ≡ some req.original_payment_id
  pub started : World
  pub nothing_requested : started.exchanges ≡ w.exchanges
  pub nothing_entered : started.ledger_entries ≡ w.ledger_entries
  pub no_token : r.token ≡ none
  pub settled : Settlement env payment refunder payee mandate started r.payment w'

get_payment_by_id-ends :
    (id : ℕ) (env : Env) (w w' : World) (p : Payment)
    → get_payment_by_id id env w ≡ (ok p, w')
    → find? (has_id id) w.payments ≡ some p
unfolding get_payment_by_id select_one
get_payment_by_id-ends id env w w' p done =
    let stepped = query-ends _ env w w' p done in ground arith

is_settled :
    (s : PaymentStatus) → same_status s PaymentStatus.settled ≡ true → s ≡ PaymentStatus.settled
is_settled s h = ground arith

refundable_amount :
    (x : ℤ) (limit : ℕ)
    → is_refundable_amount x limit ≡ true
    → (0 < pos_part x) × (pos_part x ≤ limit)
refundable_amount (pos n) limit h = (ground arith, ground arith)
refundable_amount (negsuc n) limit h = ground arith

returned :
    (q : Payment) (r : Receipt) (env : Env) (v w' : World)
    → pure {A = Receipt} (record { payment = q; token = none }) env v ≡ (ok r, w')
    → (q ≡ r.payment) × (r.token ≡ none) × (v ≡ w')
unfolding pure
returned q r env v w' done =
    let answer = ap (λ x. x.0) done in
    (ground (arith, answer), ground (arith, answer), ap (λ x. x.1) done)

unmoved : {w w' : World} → w ≡ w' → IsQuiet w w'
unmoved {w} {w'} same = subst (λ z. IsQuiet w z) same (IsQuiet-frame.stays w)

-- one quiet stretch after another
infixl 5 ◌⨾◌
◌⨾◌ : {u v w : World} → IsQuiet u v → IsQuiet v w → IsQuiet u w
h ⨾ k = IsQuiet-frame.goes_on _ _ _ h k

pay_back-ends :
    (req : RefundRequest) (original : Payment) (refunder payee : User) (m : Mandate) (env : Env)
    (w w' : World) (r : Receipt)
    → pay_back req original refunder payee m env w ≡ (ok r, w')
    → (p : Payment) × (v : World) × (has_bank_details payee ≡ true)
      × (pos_part req.amount_kobo ≤ refunder.per_tx_limit_kobo)
      × (p.amount_kobo ≡ pos_part req.amount_kobo)
      × (p.idempotency_key ≡ req.idempotency_key)
      × (p.sender_user_id ≡ req.refunder_user_id)
      × (p.receiver_user_id ≡ original.sender_user_id)
      × (p.refunds_payment_id ≡ some req.original_payment_id)
      × (v.exchanges ≡ w.exchanges)
      × (v.ledger_entries ≡ w.ledger_entries)
      × (r.token ≡ none)
      × Settlement env p refunder payee m v r.payment w'
unfolding pay_back
pay_back-ends req original refunder payee m env w w' r done =
    bind_then _ _ env w w' r done λ _ w1 e1 d1. bind_then _ _ env w1 w' r d1 λ _ w2 e2 d2.
      bind_then _ _ env w2 w' r d2 λ p w3 e3 d3. bind_then _ _ env w3 w' r d3 λ q w4 e4 d4.
        let (bank, same) = require-ends _ _ env w w1 e1 in
        let (low, _) =
          enforce_limits_sound refunder payee.id (pos_part req.amount_kobo) env w1
            (ap (λ x. x.0) e2) in
        let (row, found, xs, es) =
          create_payment-ends _ env w2 w3 p (within-ends _ _ env w2 w3 p e3) in
        let (paid, no_token, last) = returned q r env w4 w' d4 in
        let before =
          unmoved same
          ⨾ ends_unmoved _ env w1 w2 tt
              (enforce_limits-IsQuiet refunder payee.id (pos_part req.amount_kobo)) e2 in
        (
          p,
          w3,
          bank,
          low,
          ap (λ x. x.amount_kobo) row,
          ap (λ x. x.idempotency_key) row,
          ap (λ x. x.sender_user_id) row,
          ap (λ x. x.receiver_user_id) row,
          ap (λ x. x.refunds_payment_id) row,
          xs ∙ before.exchanges,
          es ∙ before.ledger,
          no_token,
          subst (λ z. Settlement env p refunder payee m w3 r.payment z) last
              (subst (λ z. Settlement env p refunder payee m w3 z w4) paid
                (orchestrate-Settlement p refunder payee m none env w3 w4 q found e4)),
        )

-- Where no payment has the idempotency key of the request and Refund returns a receipt, a refund has
-- been made as `Repaid` says: of a settled payment that the refunder received, of a positive amount
-- that is at most the payment's and within the refunder's limit on one transaction, with the
-- mandate that the request names, an active one of the refunder, to the bank account of the original
-- sender, with the money moved once and the new row, from the refunder to the original sender, settled.
pub refund-Repaid :
    (req : RefundRequest) (env : Env) (w w' : World) (r : Receipt)
    → find? (λ p. str_eq p.idempotency_key req.idempotency_key) w.payments ≡ none
    → refund req env w ≡ (ok r, w')
    → Repaid env req w r w'
unfolding refund refund_fresh or_else pure
refund-Repaid req env w w' r fresh done = bind_then _ _ env w w' r done λ known w1 first d1.
    let (nothing, ticked) = idempotent_return-ends req.idempotency_key env w w1 known fresh first in
    let d2 = subst (λ k. or_else k (refund_fresh req) env w1 ≡ (ok r, w')) nothing d1 in
    bind_then _ _ env w1 w' r d2 λ original w2 e2 d3. bind_then _ _ env w2 w' r d3 λ _ w3 e3 d4.
      bind_then _ _ env w3 w' r d4 λ _ w4 e4 d5. bind_then _ _ env w4 w' r d5 λ _ w5 e5 d6.
        bind_then _ _ env w5 w' r d6 λ m w6 e6 d7. bind_then _ _ env w6 w' r d7 λ refunder w7 e7 d8.
          bind_then _ _ env w7 w' r d8 λ payee w8 e8 d9.
            let (mine, same3) = require-ends _ _ env w2 w3 e3 in
            let (was_settled, same4) = require-ends _ _ env w3 w4 e4 in
            let (fits, same5) = require-ends _ _ env w4 w5 e5 in
            let (some_of, not_more) = refundable_amount req.amount_kobo original.amount_kobo fits in
            let (stored, owned, active, _) = validated_mandate-ends _ _ env w5 w6 m e6 in
            let (
              p, v, bank, low, amount, key, paid_by, paid_to, linked, xs, es, no_token, settled,
            ) =
              pay_back-ends req original refunder payee m env w8 w' r d9 in
            let loading = rows_or-ends _ _ _ env w1 w2 original e2 in
            let to5 =
              ends_unmoved _ env w w1 known (idempotent_return-IsQuiet req.idempotency_key) first
              ⨾ ends_unmoved _ env w1 w2 original (get_payment_by_id-IsQuiet _) loading
              ⨾ unmoved (same3 ∙ same4 ∙ same5) in
            let to6 =
              to5
              ⨾ ends_unmoved _ env w5 w6 m
                  (validated_mandate-IsQuiet req.mandate_id req.refunder_user_id) e6 in
            let charged = within-ends _ _ env w6 w7 refunder e7 in
            let to7 = to6 ⨾ ends_unmoved _ env w6 w7 refunder (get_user_by_id-IsQuiet _) charged in
            let before =
              to7
              ⨾ ends_unmoved _ env w7 w8 payee (get_user_by_id-IsQuiet _)
                  (within-ends _ _ env w7 w8 payee e8) in
            record {
              original = original;
              original_is =
                  subst (λ z. find? (has_id req.original_payment_id) z.payments ≡ some original)
                    ticked
                    (get_payment_by_id-ends req.original_payment_id env w1 w2 original loading);
              received = ==_eq original.receiver_user_id req.refunder_user_id mine;
              was_settled = is_settled original.status was_settled;
              amount_positive = some_of;
              amount_bounded = not_more;
              mandate = m;
              mandate_is =
                  subst (λ ms. find? (λ x. x.id == req.mandate_id) ms ≡ some m) to5.mandates stored;
              owned = owned;
              active = active;
              refunder = refunder;
              refunder_is =
                  subst (λ us. find? (λ u. u.id == req.refunder_user_id) us ≡ some refunder)
                    to6.users (get_user_by_id-ends req.refunder_user_id env w6 w7 refunder charged);
              within_limit = low;
              payee = payee;
              payee_is =
                  subst (λ us. find? (λ u. u.id == original.sender_user_id) us ≡ some payee)
                    to7.users
                    (get_user_by_id-ends original.sender_user_id env w7 w8 payee
                      (within-ends _ _ env w7 w8 payee e8));
              payee_can_be_paid = bank;
              payment = p;
              amount = amount;
              key = key;
              paid_by = paid_by;
              paid_to = paid_to;
              linked = linked;
              started = v;
              nothing_requested = xs ∙ before.exchanges;
              nothing_entered = es ∙ before.ledger;
              no_token = no_token;
              settled = settled;
            }
