-- ===== src/Payments/Create/Repeat.antt =====
-- A repeated request: Create and Refund answer from the row that has the idempotency key.
use echopay.Common.{◌≡◌, suc, none, some, find?, str_eq, arith, sym, subst}
use echopay.Store.Models.{Payment}
use echopay.Store.Query.{select_one}
use echopay.Store.Payments.{get_payment_by_idempotency_key}
use echopay.World.{Env, World, ok}
use echopay.Action.{pure, query, ◌>>=◌, handle, or_else}
use echopay.Payments.Types.{CreateRequest, RefundRequest}
use echopay.Payments.Checks.{idempotent_return}
use echopay.Payments.Create.{create, refund}

-- Where the lookup of the key does not fail and finds a payment, Create and Refund both return that
-- payment with no token and change nothing but the count of turns: no charge, no row, no entry.
pub create-refund_repeated :
    (c : CreateRequest) (r : RefundRequest) (env : Env) (w : World) (p : Payment)
    → env.database_fault w.turn ≡ none
    → find? (λ q. str_eq q.idempotency_key c.idempotency_key) w.payments ≡ some p
    → r.idempotency_key ≡ c.idempotency_key
    → (create c env w ≡ (ok (record { payment = p; token = none }), record w { turn = suc w.turn }))
      × (refund r env w
          ≡ (ok (record { payment = p; token = none }), record w { turn = suc w.turn }))
unfolding create refund idempotent_return get_payment_by_idempotency_key select_one query ◌>>=◌
    handle or_else pure
create-refund_repeated c r env w p quiet known same =
    let again =
      subst (λ k. find? (λ (q : Payment). str_eq q.idempotency_key k) w.payments ≡ some p)
        (sym same) known in
    (ground arith, ground arith)
